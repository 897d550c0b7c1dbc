-- ===== src/Db/Session.antt =====
-- Statements and transactions (database/sql), with what the program sends to the outside.
-- A statement is atomic: it has its rows or its error. The connection may refuse it, or carry it
-- out and lose the answer; `faults` says which, one entry for each statement sent.
use x_ui_site.Prelude.{
  ℕ, String, Bool, true, false, any, Option, none, some, List, [], ◌∷◌, ◌++◌, tail,
}
use x_ui_site.Prelude.Int.{ℤ}
use x_ui_site.Db.Rows.{Tables, Seqs, Panel}
use x_ui_site.Db.Errors.{Error, Result, ok, err, map_ok, connection}

pub data Fault : Type 0 where
  fine refused unacked : Fault

-- A value in the payload of a notification.
pub data Value : Type 0 where
  num : ℕ → Value
  text : String → Value

-- An event that is handed to notification.Hub.
pub record Notice : Type 0 where
  pub topic : String
  pub payload : List (String × Value)

-- xui.ProvisionRequest and xui.ProvisionResponse.
pub record ProvisionCall : Type 0 where
  pub panel : Panel
  pub user_id : ℕ
  pub email : String
  pub protocol : String
  pub uuid : String
  pub expiry_unix : ℤ
  pub traffic_gb : ℤ

pub record ProvisionResponse : Type 0 where
  pub uuid : String
  pub expires_at : ℤ

-- The answer of a panel: its status and, if it decodes, its body.
pub record PanelReply : Type 0 where
  pub status : ℕ
  pub body : Option ProvisionResponse

-- audit.Entry as FromRequest of internal/audit/logger.go fills it.
pub record AuditEntry : Type 0 where
  pub action : String
  pub resource : String
  pub ip : String
  pub user_agent : String
  pub status : String

-- `saved` holds the committed rows while a transaction is open. `now` is the clock in nanoseconds,
-- read once by each operation. `calls` are the requests sent to panels, `replies` what comes
-- back, `none` for a transport error; `random` is what crypto/rand reads; `audits` are the entries
-- handed to the audit log.
pub record World : Type 0 where
  pub tables : Tables
  pub seqs : Seqs
  pub saved : Option Tables
  pub faults : List Fault
  pub now : ℕ
  pub sent : List Notice
  pub calls : List ProvisionCall
  pub replies : List (Option PanelReply)
  pub random : List (List ℕ)
  pub audits : List AuditEntry

abbrev pub M : Type 0 → Type 0
M A = World → Result A × World

module _ {A : Type 0} where
  unfoldable pub pure : A → M A
  pure a w = (ok a, w)

  unfoldable pub raise : Error → M A
  raise e w = (err e, w)

  unfoldable pub lift : Result A → M A
  lift r w = (r, w)

  unfoldable pub gets : (World → A) → M A
  gets f w = (ok (f w), w)

abbrev pub continue : {A B : Type 0} → Result A → (A → M B) → M B
continue (ok a) f w = f a w
continue (err e) f w = (err e, w)

infixl 5 ◌>>=◌ ◌>>◌
unfoldable pub ◌>>=◌ : {A B : Type 0} → M A → (A → M B) → M B
unfolding pure raise lift gets
◌>>=◌ m f w = continue (m w).0 f (m w).1

abbrev pub ◌>>◌ : {A B : Type 0} → M A → M B → M B
m >> k = m >>= λ _. k

-- A statement: the sequences it leaves, and its error or its answer with the rows it leaves.
abbrev pub Sql : Type 0 → Type 0
Sql A = Seqs → Tables → Seqs × Result (A × Tables)

-- A statement that draws no id.
abbrev pub query : {A : Type 0} → (Tables → Result (A × Tables)) → Sql A
query q s t = (s, q t)

-- A SELECT.
abbrev pub read : {A : Type 0} → (Tables → Result A) → Sql A
read q s t = (s, map_ok (λ a. (a, t)) (q t))

abbrev pub first_fault : List Fault → Fault
first_fault [] = fine
first_fault (f ∷ fs) = f

-- Whether the answer to a statement that was carried out will be lost.
abbrev pub is_unacked : Fault → Bool
is_unacked fine = false
is_unacked refused = false
is_unacked unacked = true

abbrev pub loses : World → Bool
loses w = any is_unacked w.faults

abbrev pub settle : {A : Type 0} → World → Result (A × Tables) → Result A × World
settle w (ok (a, t)) = (ok a, record w { tables = t })
settle w (err e) = (err e, w)

-- What a fault makes of an answer: refused, the world is as before the statement.
abbrev pub deliver : {A : Type 0} → Fault → World → Result A × World → Result A × World
deliver fine w answer = answer
deliver refused w answer = (err connection, w)
deliver unacked w answer = (err connection, answer.1)

abbrev pub past_fault : World → World
past_fault w = record w { faults = tail w.faults }

-- ExecContext, QueryRowContext…Scan: one statement on a transaction or, with none open, on its own.
unfoldable pub exec : {A : Type 0} → Sql A → M A
exec q w =
    let (s, r) = q w.seqs w.tables in
    deliver (first_fault w.faults) (past_fault w) (settle (record (past_fault w) { seqs = s }) r)

abbrev pub committed : World → Tables
committed w = elim w.saved [ none ↦ w.tables | some t ↦ t ]

-- A SELECT on the pool: beside an open transaction it sees the committed rows.
unfoldable pub look : {A : Type 0} → (Tables → Result A) → M A
look q w = deliver (first_fault w.faults) (past_fault w) (q (committed w), past_fault w)

abbrev pub begin_by : Fault → World → Result (Unit {0}) × World
begin_by fine w = (ok tt, record w { saved = some w.tables })
begin_by refused w = (err connection, w)
begin_by unacked w = (err connection, w)

-- BeginTx; a connection whose answer is lost is dropped, and its transaction with it.
unfoldable pub begin : M (Unit {0})
begin w = begin_by (first_fault w.faults) (past_fault w)

abbrev pub undone : Option Tables → World → World
undone none w = w
undone (some t) w = record w { tables = t; saved = none }

-- Rollback; with no transaction open it returns an error, which the program ignores.
unfoldable pub rollback : World → World
rollback w = undone w.saved w

abbrev pub commit_by : Fault → World → Result (Unit {0}) × World
commit_by fine w = (ok tt, record w { saved = none })
commit_by refused w = (err connection, undone w.saved w)
commit_by unacked w = (err connection, record w { saved = none })

-- Commit: refused, nothing is kept; unacknowledged, all is kept and the caller sees an error.
unfoldable pub commit : M (Unit {0})
commit w = commit_by (first_fault w.faults) (past_fault w)

abbrev pub rolled : {A : Type 0} → (Error → Error) → Result A → World → Result A × World
rolled f (ok a) w = (ok a, w)
rolled f (err e) w = (err (f e), rollback w)

-- `if err != nil { _ = tx.Rollback(); return …, f(err) }`
unfoldable pub or_rollback : {A : Type 0} → (Error → Error) → M A → M A
unfolding rollback
or_rollback f m w = rolled f (m w).0 (m w).1

abbrev pub relabelled : {A : Type 0} → (Error → Error) → Result A → World → Result A × World
relabelled f (ok a) w = (ok a, w)
relabelled f (err e) w = (err (f e), w)

-- `if err != nil { return …, f(err) }`
unfoldable pub or_return : {A : Type 0} → (Error → Error) → M A → M A
or_return f m w = relabelled f (m w).0 (m w).1

-- notification.Hub.Notify, which returns nothing.
unfoldable pub notify : String → List (String × Value) → M (Unit {0})
notify topic payload w =
    (ok tt, record w { sent = w.sent ++ record { topic = topic; payload = payload } ∷ [] })
