-- ===== src/Start/Scripts.antt =====
-- The order of the migrations, and what a loop over them that ends has done.
use mathlib.Core.List.{Perm}
use mathlib.Core.List.Perm
use x_ui_site.Prelude.{
  String, ◌≡◌, refl, sym, subst, ◌⊎◌, true, false, List, [], ◌∷◌, Bool-cases, inl, inr, arith,
}
use x_ui_site.Db.Errors.{Result, ok, err}
use x_ui_site.Db.Session.{World, M, ◌>>◌}
use x_ui_site.Db.Rules.{Runs, bind-Runs, lift-Runs, pure-Runs, weaken-Runs, Ends}
use x_ui_site.Start.{Machine, before, put, sorted, carry_out, run_scripts}

-- No text stands behind a greater one.
abbrev pub Ascending : List String → Type 0
Ascending [] = Unit {0}
Ascending (s ∷ []) = Unit {0}
Ascending (s ∷ t ∷ ts) = (before s t ≡ true) × Ascending (t ∷ ts)

before_total : (s t : String) → before s t ≡ false → before t s ≡ true
before_total String.[] t h = cc
before_total (String.◌∷◌ c s) String.[] h = refl
before_total (String.◌∷◌ c s) (String.◌∷◌ d t) h = ground (arith, before_total s t)

put-Ascending : (s : String) (ts : List String) → Ascending ts → Ascending (put s ts)
put-Ascending s [] h = tt
put-Ascending s (t ∷ []) h = elim (Bool-cases (before s t)) [
  | inl e ↦ rw e (e, tt)
  | inr e ↦ rw e (before_total s t e, tt)
]
put-Ascending s (t ∷ u ∷ us) h = elim (Bool-cases (before s t)) [
  | inl e ↦ rw e (e, h)
  | inr e ↦
      let rest = put-Ascending s (u ∷ us) h.1 in
      elim (Bool-cases (before s u)) [
        | inl f ↦ rw (e, f) (before_total s t e, (f, h.1))
        | inr f ↦ rw (e, f) (h.0, (rw f at rest))
      ]
]

pub sorted-Ascending : (ss : List String) → Ascending (sorted ss)
unfolding sorted
sorted-Ascending [] = tt
sorted-Ascending (s ∷ ss) = put-Ascending s (sorted ss) (sorted-Ascending ss)

put-perm : (s : String) (ts : List String) → Perm (put s ts) (s ∷ ts)
put-perm s [] = Perm.refl _
put-perm s (t ∷ ts) = elim (Bool-cases (before s t)) [
  | inl e ↦ rw e (Perm.refl _)
  | inr e ↦ rw e (Perm.trans (Perm.cons t (put-perm s ts)) (Perm.swap _ _ _))
]

pub sorted-perm : (ss : List String) → Perm (sorted ss) ss
unfolding sorted
sorted-perm [] = Perm.refl _
sorted-perm (s ∷ ss) = Perm.trans (put-perm s (sorted ss)) (Perm.cons s (sorted-perm ss))

module _ (m : Machine) where
  -- From the first world to the second by reading the files in turn and carrying out their scripts,
  -- each without an error.
  abbrev pub Carried : List String → World → World → Type 0
  Carried [] w x = x ≡ w
  Carried (f ∷ fs) w x =
      (text : String) × (m.read_file f ≡ ok text)
      × ((carry_out m text w).0 ≡ ok tt)
      × Carried fs (carry_out m text w).1 x

  -- A loop that ended early: at a file that cannot be read, at a script that failed, or later.
  abbrev pub Stopped : List String → World → World → Type 0
  Stopped [] w x = ⊥
  Stopped (f ∷ fs) w x =
      (x ≡ w)
      ⊎ ((text : String) × (m.read_file f ≡ ok text)
          × ((x ≡ (carry_out m text w).1)
              ⊎ (((carry_out m text w).0 ≡ ok tt) × Stopped fs (carry_out m text w).1 x)))

  step-Ends :
      (text : String) (w : World) (r : Result (Unit {0}))
      → r ≡ (carry_out m text w).0
      → Ends
          (λ _ y. ((carry_out m text w).0 ≡ ok tt) × (y ≡ (carry_out m text w).1))
          (λ y. y ≡ (carry_out m text w).1)
          r
          (carry_out m text w).1
  step-Ends text w (ok u) e = (sym e, refl)
  step-Ends text w (err q) e = refl

  pub run_scripts-Carried :
      (fs : List String) (w : World) → Runs w (run_scripts m fs) (λ _. Carried fs w) (Stopped fs w)
  unfolding run_scripts
  run_scripts-Carried [] w = pure-Runs tt refl
  run_scripts-Carried (f ∷ fs) w =
      bind-Runs
        (lift-Runs {P = λ text x. (m.read_file f ≡ ok text) × (x ≡ w)} (m.read_file f)
          (λ text e. (e, refl)) (inl refl))
        λ text x (there, same).
          subst
            (λ y. Runs y (run_scripts_after text) (λ _. Carried (f ∷ fs) w) (Stopped (f ∷ fs) w))
            (sym same)
            (bind-Runs
              (weaken-Runs (record { holds = step-Ends text w _ refl }) (λ u y h. h)
                (λ y h. inr (text, there, inl h)))
              λ u y (fine, moved).
                weaken-Runs (run_scripts-Carried fs y)
                  (λ _ z c. (text, there, fine, subst (λ q. Carried fs q z) moved c))
                  (λ z s. inr (text, there, inr (fine, subst (λ q. Stopped fs q z) moved s))))
    where
      run_scripts_after : String → M (Unit {0})
      run_scripts_after text = do carry_out m text; run_scripts m fs
