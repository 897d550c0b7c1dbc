-- ===== src/System/Between.antt =====
-- What holds of the rows between the steps of the server: rules for statements, calls and handlers.
use x_ui_site.Prelude.{
  String, ◌≡◌, refl, sym, subst, ◌∙◌, Bool, true, false, Option, none, some, List, if◌then◌else◌,
}
use x_ui_site.Db.Rows.{Tables}
use x_ui_site.Db.Errors.{Error, Result, ok, err}
use x_ui_site.Db.Session.{
  World, M, Sql, Value, Fault, fine, refused, unacked, first_fault, past_fault, deliver, settle,
  exec, look, pure, lift, gets, raise, continue, ◌>>=◌, relabelled, or_return, notify,
}
use x_ui_site.Db.Rules.{Unchanged}
use x_ui_site.Db.Frame.{Keeps}
use x_ui_site.Order.History.{Between}
use x_ui_site.Http.{
  Json, Request, Response, Handler, respond, only_post, with_body, then_field, is_post, by_body,
}

-- A call that leaves no transaction open.
pub record Closes {A : Type 0} (m : M A) : Type 0 where
  pub closes : (w : World) → w.saved ≡ none → (m w).1.saved ≡ none

module _ {A : Type 0} where
  settle-saved : (w : World) (r : Result (A × Tables)) → (settle w r).1.saved ≡ w.saved
  settle-saved w (ok (a, t)) = refl
  settle-saved w (err e) = refl

  deliver-saved :
      (f : Fault) (w : World) (answer : Result A × World)
      → answer.1.saved ≡ w.saved
      → (deliver f w answer).1.saved ≡ w.saved
  deliver-saved fine w answer h = h
  deliver-saved refused w answer h = refl
  deliver-saved unacked w answer h = h

  pub exec-Closes : (q : Sql A) → Closes (exec q)
  unfolding exec
  exec-Closes q = record {
    closes = λ w closed.
        deliver-saved (first_fault w.faults) (past_fault w) _ (
          settle-saved (record (past_fault w) { seqs = (q w.seqs w.tables).0 })
            (q w.seqs w.tables).1)
        ∙ closed;
  }

  pub look-Closes : (q : Tables → Result A) → Closes (look q)
  unfolding look
  look-Closes q = record {
    closes = λ w closed. deliver-saved (first_fault w.faults) (past_fault w) _ refl ∙ closed;
  }

  pub pure-Closes : (a : A) → Closes (pure a)
  unfolding pure
  pure-Closes a = record { closes = λ w closed. closed }

  pub lift-Closes : (r : Result A) → Closes (lift r)
  unfolding lift
  lift-Closes r = record { closes = λ w closed. closed }

  pub gets-Closes : (f : World → A) → Closes (gets f)
  unfolding gets
  gets-Closes f = record { closes = λ w closed. closed }

  pub raise-Closes : (e : Error) → Closes (raise {A = A} e)
  unfolding raise
  raise-Closes e = record { closes = λ w closed. closed }

  relabelled-saved :
      (f : Error → Error) (r : Result A) (w : World) → (relabelled f r w).1.saved ≡ w.saved
  relabelled-saved f (ok a) w = refl
  relabelled-saved f (err e) w = refl

  pub or_return-Closes : (f : Error → Error) (m : M A) → Closes m → Closes (or_return f m)
  unfolding or_return
  or_return-Closes f m h = record {
    closes = λ w closed. relabelled-saved f (m w).0 (m w).1 ∙ h.closes w closed;
  }

pub notify-Closes :
    (topic : String) (payload : List (String × Value)) → Closes (notify topic payload)
unfolding notify
notify-Closes topic payload = record { closes = λ w closed. closed }

module _ {A B : Type 0} where
  continue-saved :
      (r : Result A) (f : A → M B) (w : World)
      → ((a : A) → Closes (f a))
      → w.saved ≡ none
      → (continue r f w).1.saved ≡ none
  continue-saved (ok a) f w h closed = (h a).closes w closed
  continue-saved (err e) f w h closed = closed

  pub bind-Closes : {m : M A} {f : A → M B} → Closes m → ((a : A) → Closes (f a)) → Closes (m >>= f)
  unfolding ◌>>=◌
  bind-Closes {m} {f} h k = record {
    closes = λ w closed. continue-saved (m w).0 f (m w).1 k (h.closes w closed);
  }

-- A call, or a handler, between whose beginning and end `K` of the rows is kept.
pub record Holds (K : Tables → Type 0) {A : Type 0} (m : M A) : Type 0 where
  pub holds : (w : World) → Between K w → Between K (m w).1

pub record Fits (K : Tables → Type 0) (h : Handler) : Type 0 where
  pub fits : (r : Request) (w : World) → Between K w → Between K (h r w).1

module _ (K : Tables → Type 0) where
  pub same-Between :
      (v w : World) → w.tables ≡ v.tables → w.saved ≡ none → Between K v → Between K w
  same-Between v w t s b = record { closed = s; rows = subst K (sym t) b.rows }

  pub Unchanged-Between : (v w : World) → Unchanged v w → Between K v → Between K w
  Unchanged-Between v w u b = same-Between v w u.tables (u.outside.saved ∙ b.closed) b

  -- A call that keeps a view on which `K` rests.
  module _ {V : Type 0} (view : Tables → V)
      (stable : (t t' : Tables) → view t' ≡ view t → K t → K t') where
    pub Keeps-Holds : {A : Type 0} (m : M A) → Keeps view m → Closes m → Holds K m
    Keeps-Holds m k c = record {
      holds = λ w b. record {
        closed = c.closes w b.closed;
        rows =
            stable w.tables (m w).1.tables
              (k.keeps (view w.tables) w (record {
                here = refl;
                saved =
                    subst (λ o. elim o [ none ↦ Unit {0} | some t ↦ view t ≡ view w.tables ])
                      (sym b.closed) tt;
              })).here
              b.rows;
      };
    }

  respond-Between :
      {A : Type 0} (f : Error → Response) (g : A → Response) (x : Result A × World)
      → Between K x.1
      → Between K (respond f g x).1
  respond-Between f g (ok a, w) b = b
  respond-Between f g (err e, w) b = b

  pub called-Fits :
      {A : Type 0} (f : Error → Response) (g : A → Response) (m : M A)
      → Holds K m
      → Fits K (λ r w. respond f g (m w))
  called-Fits f g m h = record { fits = λ r w b. respond-Between f g (m w) (h.holds w b) }

  pub if-Between :
      (c : Bool) (x y : Response × World)
      → Between K x.1
      → Between K y.1
      → Between K (if c then x else y).1
  if-Between true x y h k = h
  if-Between false x y h k = k

  pub only_post-Fits : (h : Handler) → Fits K h → Fits K (only_post h)
  only_post-Fits h f = record { fits = λ r w b. if-Between (is_post r) _ _ (f.fits r w b) b }

  pub with_body-Fits :
      {A : Type 0} (decode : (String → Json) → Option A) (h : A → Handler)
      → ((a : A) → Fits K (h a))
      → Fits K (with_body decode h)
  with_body-Fits {A} decode h f = record { fits = λ r w b. by r w b (then_field r.body decode) }
    where
      by : (r : Request) (w : World) → Between K w → (o : Option A) → Between K (by_body h o r w).1
      by r w b none = b
      by r w b (some a) = (f a).fits r w b
