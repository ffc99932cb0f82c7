-- ===== src/Regalloc/Distinct.antt =====
-- Lists of intervals of which each has an id of its own.
use cco_lang.Base.{
  ℕ, ◌≡◌, ◌≢◌, ◌⊎◌, refl, sym, ◌∙◌, ap, ltb, List, [], ◌∷◌, ◌++◌, Bool-cases, inl, inr,
}
use cco_lang.Regalloc.Scan.{LiveInterval, expire_active, insert_active}
use cco_lang.Regalloc.Active.{
  In, In-append, append-In_left, append-In_right, In-expire_active, In-insert_active,
}

abbrev pub IsNew : LiveInterval → List LiveInterval → Type 0
IsNew x xs = (p : LiveInterval) → In p xs → p.val_id ≢ x.val_id

abbrev pub Distinct : List LiveInterval → Type 0
Distinct [] = Unit
Distinct (x ∷ xs) = IsNew x xs × Distinct xs

pub Distinct-one :
    (xs : List LiveInterval)
    → Distinct xs
    → (p q : LiveInterval) → In p xs
    → In q xs
    → p.val_id ≡ q.val_id
    → p ≡ q
Distinct-one [] d p q hp hq same = absurd hp
Distinct-one (x ∷ xs) d p q (inl e) (inl e') same = e ∙ sym e'
Distinct-one (x ∷ xs) d p q (inl e) (inr hq) same =
    absurd (d.0 q hq (sym same ∙ ap (λ (y : LiveInterval). y.val_id) e))
Distinct-one (x ∷ xs) d p q (inr hp) (inl e) same =
    absurd (d.0 p hp (same ∙ ap (λ (y : LiveInterval). y.val_id) e))
Distinct-one (x ∷ xs) d p q (inr hp) (inr hq) same = Distinct-one xs d.1 p q hp hq same

pub expire_active-Distinct :
    (t : ℕ) (xs : List LiveInterval) → Distinct xs → Distinct (expire_active t xs)
unfolding expire_active
expire_active-Distinct t [] d = d
expire_active-Distinct t (x ∷ xs) d = elim (Bool-cases (ltb x.end t)) [
  | inl gone ↦ rw gone (expire_active-Distinct t xs d.1)
  | inr stays ↦
      rw stays ((λ p h. d.0 p (In-expire_active t p xs h).0), expire_active-Distinct t xs d.1)
]

pub insert_active-Distinct :
    (curr : LiveInterval) (xs : List LiveInterval)
    → IsNew curr xs
    → Distinct xs
    → Distinct (insert_active curr xs)
unfolding insert_active
insert_active-Distinct curr [] new d = (new, d)
insert_active-Distinct curr (x ∷ xs) new d = elim (Bool-cases (ltb curr.end x.end)) [
  | inl here ↦ rw here (new, d)
  | inr on ↦ rw on (
    (λ p h. elim (In-insert_active p curr xs h) [
      | inl e ↦ λ same. new x (inl refl) (sym same ∙ ap (λ (y : LiveInterval). y.val_id) e)
      | inr there ↦ d.0 p there
    ]),
    insert_active-Distinct curr xs (λ p h. new p (inr h)) d.1,
  )
]

-- A member taken out, and put back.
pub In-more :
    (before : List LiveInterval) (x : LiveInterval) (behind : List LiveInterval) (p : LiveInterval)
    → In p (before ++ behind)
    → In p (before ++ (x ∷ behind))
In-more before x behind p h = elim (In-append p before behind h) [
  | inl a ↦ append-In_left p before (x ∷ behind) a
  | inr b ↦ append-In_right p before (x ∷ behind) (inr b)
]

pub In-less :
    (before : List LiveInterval) (x : LiveInterval) (behind : List LiveInterval) (p : LiveInterval)
    → In p (before ++ (x ∷ behind))
    → (p ≡ x) ⊎ In p (before ++ behind)
In-less before x behind p h = elim (In-append p before (x ∷ behind) h) [
  | inl a ↦ inr (append-In_left p before behind a)
  | inr (inl e) ↦ inl e
  | inr (inr b) ↦ inr (append-In_right p before behind b)
]

pub Distinct-without :
    (before : List LiveInterval) (x : LiveInterval) (behind : List LiveInterval)
    → Distinct (before ++ (x ∷ behind))
    → Distinct (before ++ behind) × IsNew x (before ++ behind)
Distinct-without [] x behind d = (d.1, d.0)
Distinct-without (y ∷ before) x behind d =
    let (rest, new) = Distinct-without before x behind d.1 in
    let at_x : In x (before ++ (x ∷ behind)) = append-In_right x before (x ∷ behind) (inl refl) in
    (
      ((λ p h. d.0 p (In-more before x behind p h)), rest),
      λ p h. elim h [
        | inl e ↦ λ same. d.0 x at_x (sym same ∙ ap (λ (z : LiveInterval). z.val_id) e)
        | inr there ↦ new p there
      ],
    )
