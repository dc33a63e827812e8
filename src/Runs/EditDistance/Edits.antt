-- ===== src/Runs/EditDistance/Edits.antt =====
-- The test decides the relation of one edit.
use auto_correlation.Prelude.{
  ℕ, ◌+◌, ◌≤◌, ◌<◌, ◌≡◌, ◌↔◌, ◌⊎◌, inl, inr, refl, sym, subst, Bool, true, false, [], ◌∷◌, length,
  ltb, ◌==◌, Bool-cases, arith,
}
use auto_correlation.Runs.EditDistance.{Text, text_eq, scan, within_one_edit}

-- One insertion, deletion or substitution.
pub data Edit : Text → Text → Type 0 where
  insert : {x : ℕ} {l : Text} → Edit l (x ∷ l)
  delete : {x : ℕ} {l : Text} → Edit (x ∷ l) l
  substitute : {x y : ℕ} {l : Text} → Edit (x ∷ l) (y ∷ l)
  after : {x : ℕ} {l m : Text} → Edit l m → Edit (x ∷ l) (x ∷ m)

Edit-sym : {a b : Text} → Edit a b → Edit b a
Edit-sym insert = delete
Edit-sym delete = insert
Edit-sym substitute = substitute
Edit-sym (after e) = after (Edit-sym e)

cons_eq : {x y : ℕ} {a b : Text} → x ≡ y → a ≡ b → x ∷ a ≡ y ∷ b
cons_eq p q = cc

text_eq_sound : (a b : Text) → text_eq a b ≡ true → a ≡ b
unfolding text_eq
text_eq_sound [] [] h = refl
text_eq_sound [] (y ∷ b) h = absurd (cc)
text_eq_sound (x ∷ a) [] h = absurd (cc)
text_eq_sound (x ∷ a) (y ∷ b) h = cons_eq (ground arith) (text_eq_sound a b (ground arith))

text_eq_refl : (a : Text) → text_eq a a ≡ true
unfolding text_eq
text_eq_refl [] = refl
text_eq_refl (x ∷ a) = ground (arith, text_eq_refl a)

-- Once edited, the rest must be equal.
edited_sound : (s : Bool) (a b : Text) → length a ≡ length b → scan s true a b ≡ true → a ≡ b
unfolding scan
edited_sound s [] [] l h = refl
edited_sound s (x ∷ a) [] l h = absurd (omega arith)
edited_sound s [] (y ∷ b) l h = absurd (omega arith)
edited_sound s (x ∷ a) (y ∷ b) l h = elim (Bool-cases (x == y)) [
  | inl e ↦ cons_eq (ground arith) (edited_sound s a b (omega arith) (rw e at h))
  | inr e ↦ absurd (ground arith)
]

scan_refl : (s t : Bool) (a : Text) → scan s t a a ≡ true
unfolding scan
scan_refl s t [] = refl
scan_refl s t (x ∷ a) = ground (arith, scan_refl s t a)

-- Texts of one length.
same_sound : (a b : Text) → length a ≡ length b → scan true false a b ≡ true → (a ≡ b) ⊎ Edit a b
unfolding scan
same_sound [] [] l h = inl refl
same_sound (x ∷ a) [] l h = absurd (omega arith)
same_sound [] (y ∷ b) l h = absurd (omega arith)
same_sound (x ∷ a) (y ∷ b) l h = elim (Bool-cases (x == y)) [
  | inl e ↦ let p : x ≡ y = ground arith in extend p (same_sound a b (omega arith) (rw e at h))
  | inr e ↦
      let q : a ≡ b = edited_sound true a b (omega arith) (rw e at h) in
      inr (subst (λ m. Edit (x ∷ a) (y ∷ m)) q substitute)
]
  where
    extend : x ≡ y → (a ≡ b) ⊎ Edit a b → (x ∷ a ≡ y ∷ b) ⊎ Edit (x ∷ a) (y ∷ b)
    extend p (inl q) = inl (cons_eq p q)
    extend p (inr e) = inr (subst (λ z. Edit (x ∷ a) (z ∷ b)) p (after e))

-- The second text one longer.
longer_sound : (a b : Text) → length b ≡ length a + 1 → scan false false a b ≡ true → Edit a b
unfolding scan
longer_sound a [] l h = absurd (omega arith)
longer_sound [] (y ∷ []) l h = insert
longer_sound [] (y ∷ (z ∷ b)) l h = absurd (omega arith)
longer_sound (x ∷ a) (y ∷ b) l h = elim (Bool-cases (x == y)) [
  | inl e ↦
      let p : x ≡ y = ground arith in
      subst (λ z. Edit (x ∷ a) (z ∷ b)) p (after (longer_sound a b (omega arith) (rw e at h)))
  | inr e ↦
      let q : x ∷ a ≡ b = edited_sound false (x ∷ a) b (omega arith) (rw e at h) in
      subst (λ m. Edit (x ∷ a) (y ∷ m)) q insert
]

scan_insert : (x : ℕ) (l : Text) → scan false false l (x ∷ l) ≡ true
unfolding scan
scan_insert x [] = refl
scan_insert x (y ∷ l) = elim (Bool-cases (y == x)) [
  | inl e ↦
      let p : y ≡ x = ground arith in
      rw e (subst (λ z. scan false false l (z ∷ l) ≡ true) refl (scan_insert y l))
  | inr e ↦ rw e (scan_refl false true (y ∷ l))
]

longer_complete : {a b : Text} → Edit a b → length b ≡ length a + 1 → scan false false a b ≡ true
unfolding scan
longer_complete (insert {x} {l}) h = scan_insert x l
longer_complete delete h = absurd (omega arith)
longer_complete substitute h = absurd (omega arith)
longer_complete (after {x} {l} {m} e) h = ground (arith, longer_complete e (omega arith))

same_complete : {a b : Text} → Edit a b → length b ≡ length a → scan true false a b ≡ true
unfolding scan
same_complete insert h = absurd (omega arith)
same_complete delete h = absurd (omega arith)
same_complete (substitute {x} {y} {l}) h =
    ground (arith, scan_refl true false l, scan_refl true true l)
same_complete (after {x} {l} {m} e) h = ground (arith, same_complete e (omega arith))

Edit-length : {a b : Text} → Edit a b → (length a ≤ length b + 1) × (length b ≤ length a + 1)
Edit-length insert = (omega arith, omega arith)
Edit-length delete = (omega arith, omega arith)
Edit-length substitute = (omega arith, omega arith)
Edit-length (after e) = let (p, q) = Edit-length e in (omega arith, omega arith)

-- How the lengths lie.
data Lengths (a b : Text) : Type 0 where
  same : length a ≡ length b → Lengths a b
  longer : length b ≡ length a + 1 → Lengths a b
  shorter : length a ≡ length b + 1 → Lengths a b
  far : (length a + 1 < length b) ⊎ (length b + 1 < length a) → Lengths a b

lengths : (a b : Text) → Lengths a b
lengths a b = elim (Bool-cases (ltb (length a + 1) (length b))) [
  | inl e ↦ far (inl (ground arith))
  | inr e ↦ elim (Bool-cases (ltb (length b + 1) (length a))) [
    | inl f ↦ far (inr (ground arith))
    | inr f ↦ elim (Bool-cases (length a == length b)) [
      | inl g ↦ same (ground arith)
      | inr g ↦ elim (Bool-cases (ltb (length a) (length b))) [
        | inl h ↦ longer (ground arith)
        | inr h ↦ shorter (ground arith)
      ]
    ]
  ]
]

unequal_sound :
    (a b : Text)
    → Lengths a b
    → text_eq a b ≡ false
    → within_one_edit a b ≡ true
    → Edit a b ⊎ (a ≡ b)
unfolding within_one_edit
unequal_sound a b (same l) n h =
    let p : scan true false a b ≡ true = ground arith in
    elim (same_sound a b l p) [ inl e ↦ inr e | inr e ↦ inl e ]
unequal_sound a b (longer l) n h =
    let p : scan false false a b ≡ true = ground arith in inl (longer_sound a b l p)
unequal_sound a b (shorter l) n h =
    let p : scan false false b a ≡ true = ground arith in inl (Edit-sym (longer_sound b a l p))
unequal_sound a b (far l) n h = absurd (ground arith)

Edit-complete : (a b : Text) → Lengths a b → Edit a b → within_one_edit a b ≡ true
unfolding within_one_edit
Edit-complete a b (same l) e = ground (arith, same_complete e (sym l))
Edit-complete a b (longer l) e = ground (arith, longer_complete e l)
Edit-complete a b (shorter l) e = ground (arith, longer_complete (Edit-sym e) l)
Edit-complete a b (far l) e = absurd (ground (arith, Edit-length e))

-- The test passes exactly when the texts are equal or one insertion, deletion or substitution of
-- a character turns one into the other.
pub within_one_edit_lem : (a b : Text) → (within_one_edit a b ≡ true) ↔ ((a ≡ b) ⊎ Edit a b)
unfolding within_one_edit
within_one_edit_lem a b = (sound (Bool-cases (text_eq a b)), complete)
  where
    sound :
        (text_eq a b ≡ true) ⊎ (text_eq a b ≡ false)
        → within_one_edit a b ≡ true
        → (a ≡ b) ⊎ Edit a b
    sound (inl e) h = inl (text_eq_sound a b e)
    sound (inr e) h = elim (unequal_sound a b (lengths a b) e h) [ inl d ↦ inr d | inr q ↦ inl q ]

    complete : (a ≡ b) ⊎ Edit a b → within_one_edit a b ≡ true
    complete (inl e) =
        let t : text_eq a b ≡ true = subst (λ c. text_eq a c ≡ true) e (text_eq_refl a) in rw t refl
    complete (inr e) = Edit-complete a b (lengths a b) e
