-- ===== src/Messages/Replay.antt =====
-- What a list of updates does to a set of announced prefixes, whatever tree holds it; and that it
-- does not matter if the set is ahead of the list.
use slash.Base.{◌≡◌, ◌≢◌, ◌⊎◌, ◌↔◌, inl, inr, refl, List, [], ◌∷◌, ◌++◌, Bool-cases}
use slash.Prefix.{Prefix, prefix_eq}
use slash.Prefix.Laws.{prefix_eq_iff}
use slash.Messages.{UpdateType, ThinBgpUpdate, announce, withdraw}

abbrev pub After : UpdateType → Prefix → (Prefix → Type 0) → Prefix → Type 0
After announce p set x = (p ≡ x) ⊎ set x
After withdraw p set x = set x × (p ≢ x)

abbrev pub Changed : List ThinBgpUpdate → (Prefix → Type 0) → Prefix → Type 0
Changed [] set = set
Changed (u ∷ rest) set = Changed rest (After u.update_type u.prefix set)

-- An update of the list is about the prefix.
abbrev Touches : List ThinBgpUpdate → Prefix → Type 0
Touches [] x = ⊥
Touches (u ∷ rest) x = (u.prefix ≡ x) ⊎ Touches rest x

same_or_not : (p x : Prefix) → (p ≡ x) ⊎ (p ≢ x)
same_or_not p x = elim (Bool-cases (prefix_eq p x)) [
  | inl e ↦ inl ((prefix_eq_iff p x).0 e)
  | inr ne ↦ inr (λ e. let k = (prefix_eq_iff p x).1 e in cc)
]

-- One update of two sets that agree at a prefix that it is not about.
After-cong :
    (kind : UpdateType) (p : Prefix) (a b : Prefix → Type 0) (x : Prefix)
    → (p ≡ x) ⊎ (a x → b x)
    → After kind p a x
    → After kind p b x
After-cong announce p a b x same (inl e) = inl e
After-cong announce p a b x (inl e) (inr h) = inl e
After-cong announce p a b x (inr f) (inr h) = inr (f h)
After-cong withdraw p a b x (inl e) (h, ne) = absurd (ne e)
After-cong withdraw p a b x (inr f) (h, ne) = (f h, ne)

-- Sets that agree but on the prefixes that the list is about become the same.
Changed-cong :
    (us : List ThinBgpUpdate) (a b : Prefix → Type 0)
    → ((x : Prefix) → Touches us x ⊎ (a x ↔ b x))
    → (x : Prefix) → Changed us a x ↔ Changed us b x
Changed-cong [] a b same x = elim (same x) [ inl h ↦ absurd h | inr h ↦ h ]
Changed-cong (u ∷ rest) a b same x =
    Changed-cong rest (After u.update_type u.prefix a) (After u.update_type u.prefix b)
      (λ y. elim (same y) [
        | inl (inl e) ↦ inr (
          After-cong u.update_type u.prefix a b y (inl e),
          After-cong u.update_type u.prefix b a y (inl e),
        )
        | inl (inr later) ↦ inl later
        | inr h ↦ inr (
          After-cong u.update_type u.prefix a b y (inr h.0),
          After-cong u.update_type u.prefix b a y (inr h.1),
        )
      ])
      x

-- The list of the same sets.
pub Changed-iff :
    (us : List ThinBgpUpdate) (a b : Prefix → Type 0)
    → ((x : Prefix) → a x ↔ b x)
    → (x : Prefix) → Changed us a x ↔ Changed us b x
Changed-iff us a b same = Changed-cong us a b (λ x. inr (same x))

Touches-append : (xs ys : List ThinBgpUpdate) (x : Prefix) → Touches xs x → Touches (xs ++ ys) x
Touches-append [] ys x h = absurd h
Touches-append (u ∷ xs) ys x (inl e) = inl e
Touches-append (u ∷ xs) ys x (inr h) = inr (Touches-append xs ys x h)

-- What the list is not about stays.
untouched :
    (us : List ThinBgpUpdate) (a : Prefix → Type 0) (x : Prefix)
    → Touches us x ⊎ (Changed us a x ↔ a x)
untouched [] a x = inr (λ h. h, λ h. h)
untouched (u ∷ rest) a x = elim (untouched rest (After u.update_type u.prefix a) x) [
  | inl later ↦ inl (inr later)
  | inr same ↦ elim (same_or_not u.prefix x) [
    | inl e ↦ inl (inl e)
    | inr ne ↦ inr (one u.update_type u.prefix ne same)
  ]
]
  where
    one :
        (kind : UpdateType) (p : Prefix)
        → p ≢ x
        → (Changed rest (After u.update_type u.prefix a) x ↔ After kind p a x)
        → Changed rest (After u.update_type u.prefix a) x ↔ a x
    one announce p ne same =
        (λ h. elim (same.0 h) [ inl e ↦ absurd (ne e) | inr k ↦ k ], λ h. same.1 (inr h))
    one withdraw p ne same = (λ h. (same.0 h).0, λ h. same.1 (h, ne))

-- A set that is ahead by the first updates of the list comes to what the list makes of the old set.
pub Changed-replay :
    (xs ys : List ThinBgpUpdate) (set : Prefix → Type 0) (x : Prefix)
    → Changed (xs ++ ys) (Changed xs set) x ↔ Changed (xs ++ ys) set x
Changed-replay xs ys set = Changed-cong (xs ++ ys) (Changed xs set) set (λ x.
    elim (untouched xs set x) [
      | inl touched ↦ inl (Touches-append xs ys x touched)
      | inr same ↦ inr same
    ])

pub Changed-append :
    (us vs : List ThinBgpUpdate) (set : Prefix → Type 0)
    → Changed (us ++ vs) set ≡ Changed vs (Changed us set)
Changed-append [] vs set = refl
Changed-append (u ∷ us) vs set = Changed-append us vs (After u.update_type u.prefix set)

-- Two lists, one after the other.
pub Changed-both :
    (us vs : List ThinBgpUpdate) (a b c : Prefix → Type 0)
    → ((x : Prefix) → b x ↔ Changed us a x)
    → ((x : Prefix) → c x ↔ Changed vs b x)
    → (x : Prefix) → c x ↔ Changed (us ++ vs) a x
Changed-both us vs a b c first second =
    let moved = Changed-iff vs b (Changed us a) first in
    rw (Changed-append us vs a)
      (λ x. (λ h. (moved x).0 ((second x).0 h), λ h. (second x).1 ((moved x).1 h)))
