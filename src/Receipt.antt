-- ===== src/Receipt.antt =====
-- internal/receipt: service.go and minio.go. What net/http does is a parameter: whether NewRequest
-- takes an address, and what Client.Do answers to a request after those before it.
use Prim.Native.String
use x_ui_site.Prelude.{
  ℕ, ◌*◌, ◌≤◌, ◌<◌, String, ◌≡◌, refl, ◌⊎◌, inl, inr, Bool, true, false, ◌||◌, List, [], ◌∷◌, ◌++◌,
  length, ltb, ◌==◌, if◌then◌else◌, arith, Bool-cases, sym, subst, if-true, if-false,
}
use x_ui_site.Prelude.Decimal.{decimal}
use x_ui_site.Db.Errors.{Error, Result, ok, err, new}

pub record Put : Type 0 where
  pub url : String
  pub content_type : String
  pub body : List ℕ

pub record Network : Type 0 where
  pub takes : String → Bool
  pub answer : List Put → Put → Result ℕ

-- What a call comes to; PutWebP uses the request of NewRequest even where there is none.
pub data Outcome : Type 0 where
  stored : Outcome
  failed : Error → Outcome
  panicked : Outcome

-- fmt.Errorf("minio put failed: %d", res.StatusCode)
abbrev pub not_put : ℕ → Error
not_put code = new (String.◌++◌ "minio put failed: " (decimal code))

-- receipt.ObjectStore, with the requests that were sent
abbrev pub ObjectStore : Type 0
ObjectStore = String → List ℕ → List Put → Outcome × List Put

-- fmt.Sprintf("%s/%s/%s", m.endpoint, m.bucket, key)
abbrev pub put_of : String → String → String → List ℕ → Put
put_of endpoint bucket key bytes = record {
  url = String.◌++◌ endpoint (String.◌++◌ "/" (String.◌++◌ bucket (String.◌++◌ "/" key)));
  content_type = "image/webp";
  body = bytes;
}

abbrev answered : Result ℕ → Outcome
answered (ok code) = if ltb code 300 then stored else failed (not_put code)
answered (err e) = failed e

module _ (net : Network) (endpoint bucket : String) where
  -- MinIOStore.PutWebP
  unfoldable pub put_webp : ObjectStore
  put_webp key bytes sent =
      let put = put_of endpoint bucket key bytes in
      if net.takes put.url
      then (answered (net.answer sent put), sent ++ put ∷ [])
      else (panicked, sent)

abbrev pub max_size : ℕ
max_size = 5 * 1024 * 1024

-- Service.Upload, which does not use the three ids
unfoldable pub upload : ObjectStore → ℕ → ℕ → ℕ → ObjectStore
upload store order_id vendor_id user_id key bytes sent =
    if length bytes == 0 || ltb max_size (length bytes)
    then (failed (new "invalid file size"), sent)
    else store key bytes sent

module _ (net : Network) (endpoint bucket : String) (key : String) (bytes : List ℕ)
    (sent : List Put) where
  abbrev put : Put
  put = put_of endpoint bucket key bytes

  -- Of a size that is not allowed: nothing was sent.
  pub record Rejected (end : Outcome × List Put) : Type 0 where
    pub size : (length bytes ≡ 0) ⊎ (max_size < length bytes)
    pub outcome : end.0 ≡ failed (new "invalid file size")
    pub log : end.1 ≡ sent

  -- No address can be made of the key.
  pub record Unaddressed (end : Outcome × List Put) : Type 0 where
    pub refused : net.takes put.url ≡ false
    pub outcome : end.0 ≡ panicked
    pub log : end.1 ≡ sent

  -- What the answer makes of the request.
  abbrev pub Told : Result ℕ → Outcome → Type 0
  Told (ok code) o = ((code < 300) × (o ≡ stored)) ⊎ ((300 ≤ code) × (o ≡ failed (not_put code)))
  Told (err e) o = o ≡ failed e

  -- One request with all the data.
  pub record Sent (end : Outcome × List Put) : Type 0 where
    pub low : 1 ≤ length bytes
    pub high : length bytes ≤ max_size
    pub log : end.1 ≡ sent ++ put ∷ []
    pub outcome : Told (net.answer sent put) end.0

  tell : (r : Result ℕ) → Told r (answered r)
  tell (err e) = refl
  tell (ok code) = elim (Bool-cases (ltb code 300)) [
    | inl small ↦ inl ((ground arith), if-true (ltb code 300) stored _ small)
    | inr large ↦ inr ((ground arith), if-false (ltb code 300) stored _ large)
  ]

  abbrev pub Ended : Outcome × List Put → Type 0
  Ended end = Rejected end ⊎ Unaddressed end ⊎ Sent end

  stored-Ended :
      1 ≤ length bytes
      → length bytes ≤ max_size
      → Ended (put_webp net endpoint bucket key bytes sent)
  unfolding put_webp
  stored-Ended low high = elim (Bool-cases (net.takes put.url)) [
    | inl taken ↦ subst Ended (sym (if-true (net.takes put.url) _ _ taken)) (
        inr (
          inr
            (record { low = low; high = high; log = refl; outcome = tell (net.answer sent put) })))
    | inr refused ↦
        subst Ended (sym (if-false (net.takes put.url) _ _ refused))
          (inr (inl (record { refused = refused; outcome = refl; log = refl })))
  ]

  -- Whatever the order, the vendor, the user, the key and the data, and whatever the network
  -- answers: an upload to the MinIO store of no bytes, or of more than 5 MiB, is refused and sends
  -- nothing; any other sends one PUT with all its bytes and succeeds exactly where the status is
  -- below 300, or panics without sending where the address cannot be parsed.
  pub upload-Ended :
      (order_id vendor_id user_id : ℕ)
      → Ended (upload (put_webp net endpoint bucket) order_id vendor_id user_id key bytes sent)
  unfolding upload
  upload-Ended order_id vendor_id user_id =
      elim (Bool-cases (length bytes == 0 || ltb max_size (length bytes))) [
        | inl bad ↦
            subst Ended (sym (if-true (length bytes == 0 || ltb max_size (length bytes)) _ _ bad))
              (inl (record { size = size bad; outcome = refl; log = refl }))
        | inr good ↦
            subst Ended (sym (if-false (length bytes == 0 || ltb max_size (length bytes)) _ _ good))
              (stored-Ended (ground arith) (ground arith))
      ]
    where
      size :
          (length bytes == 0 || ltb max_size (length bytes)) ≡ true
          → (length bytes ≡ 0) ⊎ (max_size < length bytes)
      size bad = elim (Bool-cases (length bytes == 0)) [
        | inl empty ↦ inl (ground arith)
        | inr some_bytes ↦ inr (ground arith)
      ]
