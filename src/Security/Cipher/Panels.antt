-- ===== src/Security/Cipher/Panels.antt =====
-- A panel that is added to the registry comes back with its token.
use x_ui_site.Prelude.{
  ℕ, zero, suc, String, ◌≡◌, refl, sym, ap, subst, ◌∙◌, true, false, none, some, List, [], ◌∷◌,
  ◌++◌, find, length, length-append, take, drop, replicate, ltb, if-false, find-append_last, arith,
  ==-refl,
}
use x_ui_site.Db.Rows.{Tables, Panel}
use x_ui_site.Db.Errors.{ok, map_ok}
use x_ui_site.Db.Session.{World, ◌>>=◌, pure}
use x_ui_site.Db.Rules.{Runs, bind-Runs, weaken-Runs, pure-Runs}
use x_ui_site.Db.Success.{Stands, Never, exec-Gives, look-Gives, lift-Gives}
use x_ui_site.Repository.Statements.{has_vendor, scan_row}
use x_ui_site.Repository.Panels
use x_ui_site.Repository.Panels.{insert_panel, is_first_active, active_panel, first_active}
use x_ui_site.Security.{Crypto, bytes}
use x_ui_site.Security.Laws.{all_bytes}
use x_ui_site.Security.Cipher.{
  Gcm, Aes, and_then, derive_key, gcm_for, zero_nonce, sealed, encrypt, decrypt, unsealed, decoded,
  token_cipher,
}

-- What the program relies on: a SHA-256 digest has 32 bytes, which is the length of a key of AES-256;
-- GCM opens what it sealed under the same nonce; base64 reads back what it wrote.
pub record Promises (k : Crypto) (a : Aes) : Type 0 where
  pub digest_size : (message : List ℕ) → length (k.sha256 message) ≡ 32
  pub accepts : (key : List ℕ) → length key ≡ 32 → (b : a.Block) × (a.new_cipher key ≡ ok b)
  pub has_gcm : (b : a.Block) → (g : Gcm) × (a.new_gcm b ≡ ok g)
  pub opens :
      (b : a.Block) (g : Gcm) (nonce plaintext : List ℕ)
      → a.new_gcm b ≡ ok g
      → length nonce ≡ g.nonce_size
      → g.open_sealed nonce (g.seal nonce plaintext) ≡ ok plaintext
  pub seals_bytes :
      (b : a.Block) (g : Gcm) (nonce plaintext : List ℕ)
      → a.new_gcm b ≡ ok g
      → all_bytes (g.seal nonce plaintext) ≡ true
  pub std_inverse : (b : List ℕ) → all_bytes b ≡ true → k.decode_std (k.encode_std b) ≡ some b
  pub text_inverse : (s : String) → a.text_of (bytes s) ≡ s

length-replicate : (n : ℕ) → length (replicate {A = ℕ} n 0) ≡ n
length-replicate zero = refl
length-replicate (suc n) = ap suc (length-replicate n)

take-zeros : (n : ℕ) (xs : List ℕ) → take n (replicate n 0 ++ xs) ≡ replicate n 0
take-zeros zero xs = refl
take-zeros (suc n) xs = ap (λ z. 0 ∷ z) (take-zeros n xs)

drop-zeros : (n : ℕ) (xs : List ℕ) → drop n (replicate n 0 ++ xs) ≡ xs
drop-zeros zero xs = refl
drop-zeros (suc n) xs = drop-zeros n xs

zeros_bytes : (n : ℕ) (xs : List ℕ) → all_bytes xs ≡ true → all_bytes (replicate n 0 ++ xs) ≡ true
zeros_bytes zero xs h = h
zeros_bytes (suc n) xs h = zeros_bytes n xs h

room : (n : ℕ) (xs : List ℕ) → ltb (length (replicate {A = ℕ} n 0 ++ xs)) n ≡ false
room n xs =
    let e = length-append (replicate n 0) xs in let q = length-replicate n in ground (arith, e, q)

module _ (k : Crypto) (a : Aes) (p : Promises k a) (pass : String) where
  -- What Encrypt makes of a text, Decrypt under the same passphrase makes the text again.
  pub decrypt-encrypt :
      (text : String)
      → (c : String) × (encrypt k a pass text ≡ ok c) × (decrypt k a pass c ≡ ok text)
  unfolding encrypt decrypt
  decrypt-encrypt text =
      let (b, made) = p.accepts (derive_key k a pass) (p.digest_size (bytes pass)) in
      let (g, mode) = p.has_gcm b in
      let nonce = zero_nonce k a g in
      let body = g.seal nonce (bytes text) in
      let set_up : gcm_for k a pass ≡ ok g = ap (λ r. and_then r a.new_gcm) made ∙ mode in
      let raw : k.decode_std (k.encode_std (sealed k a g text)) ≡ some (sealed k a g text) =
        p.std_inverse (sealed k a g text)
          (zeros_bytes g.nonce_size body (p.seals_bytes b g nonce (bytes text) mode)) in
      (
        k.encode_std (sealed k a g text),
        ap (λ r. and_then r (λ h. ok (k.encode_std (sealed k a h text)))) set_up,
        ap (λ o. and_then (decoded k a o) (λ r. and_then (gcm_for k a pass) (unsealed k a r))) raw
            ∙ ap (λ r. and_then r (unsealed k a (sealed k a g text))) set_up
            ∙ if-false (ltb (length (sealed k a g text)) g.nonce_size) _ _ (room g.nonce_size body)
            ∙ ap (λ n. map_ok a.text_of (g.open_sealed n (drop g.nonce_size (sealed k a g text))))
                (take-zeros g.nonce_size body)
            ∙ ap (λ c. map_ok a.text_of (g.open_sealed nonce c)) (drop-zeros g.nonce_size body)
            ∙ ap (λ r. map_ok a.text_of r)
                (p.opens b g nonce (bytes text) mode (length-replicate g.nonce_size))
            ∙ ap ok (p.text_inverse text),
      )

  module _ (v : World) (closed : v.saved ≡ none) (healthy : v.faults ≡ []) (panel : Panel)
      (known : has_vendor panel.vendor_id v.tables ≡ true) (active : panel.is_active ≡ true)
      (first : find (is_first_active panel.vendor_id) v.tables.xui_panels ≡ none) where
    abbrev pub stored : ℕ → String → Panel
    stored id token = record panel { id = id; token = token; health = "unknown" }

    abbrev with_panel : ℕ → String → Tables
    with_panel id token = record v.tables {
      xui_panels = v.tables.xui_panels ++ record { panel = stored id token; deleted = false } ∷ [];
    }

    found :
        (id : ℕ) (token : String)
        → active_panel panel.vendor_id (with_panel id token) ≡ ok (stored id token)
    found id token =
        ap (λ o. map_ok (λ r. r.panel) (scan_row o))
          (find-append_last (is_first_active panel.vendor_id) v.tables.xui_panels
            (record { panel = stored id token; deleted = false }) first
            (rw (==-refl panel.vendor_id, active) refl))

    create-Gives :
        (token : String)
        → encrypt k a pass panel.token ≡ ok token
        → Runs v
            (Panels.create (token_cipher k a pass) panel)
            (λ id. Stands none (with_panel id token))
            Never
    unfolding Panels.create insert_panel
    create-Gives token e =
        bind-Runs
          (lift-Gives {P = λ c x. (c ≡ token) × Stands none v.tables x}
            (encrypt k a pass panel.token) token e
            (refl, record { healthy = healthy; saved = closed; tables = refl }))
          λ c w (same, s).
            weaken-Runs
              (exec-Gives none w.seqs.xui_panels (with_panel w.seqs.xui_panels token)
                (insert_panel (record panel { token = c })) v.tables w s (rw (known, same) refl))
              (λ id x (i, s2). subst (λ n. Stands none (with_panel n token) x) (sym i) s2)
              (λ x n. n)

    first_active-Gives :
        (id : ℕ) (token : String) (w : World)
        → decrypt k a pass token ≡ ok panel.token
        → Stands none (with_panel id token) w
        → Runs w
            (first_active (token_cipher k a pass) panel.vendor_id)
            (λ q x. q ≡ stored id panel.token)
            Never
    unfolding first_active
    first_active-Gives id token w opened s =
        bind-Runs
          (look-Gives (active_panel panel.vendor_id) (stored id token) (with_panel id token) w s
            (found id token))
          λ q x (e, s2).
            lift-Gives _ (stored id panel.token)
              (ap (λ r. Panels.with_token (token_cipher k a pass) r (decrypt k a pass r.token)) e
                ∙ ap (λ t. Panels.with_token (token_cipher k a pass) (stored id token) t) opened)
              refl

    -- With libraries that keep their promises, over a healthy connection and with no transaction
    -- open: a vendor without an active panel, of the vendors in the table, who adds one that is
    -- active has it answered by FirstActive with its token and all else as it was given, but the
    -- health, which is unknown, and the id, which is the one that Create answered.
    pub create-first_active :
        Runs {A = ℕ × Panel} v
          (do
            id ← Panels.create (token_cipher k a pass) panel
            q ← first_active (token_cipher k a pass) panel.vendor_id
            pure (id, q))
          (λ r x. r.1 ≡ stored r.0 panel.token)
          Never
    create-first_active =
        let (token, made, opened) = decrypt-encrypt panel.token in
        bind-Runs (create-Gives token made) λ id w2 s2.
          bind-Runs (first_active-Gives id token w2 opened s2) λ q w3 e. pure-Runs (id, q) e
