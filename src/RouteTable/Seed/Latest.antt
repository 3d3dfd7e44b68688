-- ===== src/RouteTable/Seed/Latest.antt =====
-- The latest of the times that went into a map under a prefix.
use slash.Base.{
  ◌≡◌, ◌⊎◌, ◌↔◌, inl, inr, refl, true, false, Option, none, some, [], ◌∷◌, arith, sym, subst,
  if◌then◌else◌, Bool-cases,
}
use slash.Timestamp.{Timestamp, ts_lt}
use slash.Prefix.{Prefix, prefix_eq}
use slash.Prefix.Laws.{prefix_eq_iff}
use slash.RouteTable.Seed.{Routes, later, upsert}

-- The time of a prefix in a map.
abbrev pub time_of : Prefix → Routes → Option Timestamp
time_of p [] = none
time_of p ((q, t) ∷ rest) = if prefix_eq q p then some t else time_of p rest

-- The latest of the times in `T`, or none where there is none.
abbrev pub IsLatest : (Timestamp → Type 0) → Option Timestamp → Type 0
IsLatest T none = (t : Timestamp) → T t → ⊥
IsLatest T (some t) = T t × ((t' : Timestamp) → T t' → ts_lt t t' ≡ false)

pub IsLatest-iff :
    {T T' : Timestamp → Type 0} (o : Option Timestamp)
    → ((t : Timestamp) → T t ↔ T' t)
    → IsLatest T o
    → IsLatest T' o
IsLatest-iff none same h = λ t h'. h t ((same t).1 h')
IsLatest-iff (some t) same h = ((same t).0 h.0, λ t' h'. h.1 t' ((same t').1 h'))

abbrev with_time : Option Timestamp → Timestamp → Timestamp
with_time none ts = later ts ts
with_time (some t) ts = later t ts

prefix_eq_refl : (p : Prefix) → prefix_eq p p ≡ true
prefix_eq_refl p = (prefix_eq_iff p p).1 refl

time_of-upsert :
    (p : Prefix) (ts : Timestamp) (m : Routes)
    → time_of p (upsert p ts m) ≡ some (with_time (time_of p m) ts)
unfolding upsert
time_of-upsert p ts [] = rw (prefix_eq_refl p) refl
time_of-upsert p ts ((q, t) ∷ rest) = elim (Bool-cases (prefix_eq q p)) [
  | inl same ↦ rw (same, same) refl
  | inr other ↦ rw (other, other) (time_of-upsert p ts rest)
]

time_of-upsert_ne :
    (p q : Prefix) (ts : Timestamp) (m : Routes)
    → prefix_eq p q ≡ false
    → time_of q (upsert p ts m) ≡ time_of q m
unfolding upsert
time_of-upsert_ne p q ts [] ne = rw ne refl
time_of-upsert_ne p q ts ((x, t) ∷ rest) ne = elim (Bool-cases (prefix_eq x p)) [
  | inl same ↦
      let x_is : x ≡ p = (prefix_eq_iff x p).0 same in
      let ne' : prefix_eq x q ≡ false = rw x_is ne in rw (same, ne') refl
  | inr other ↦ elim (Bool-cases (prefix_eq x q)) [
    | inl here ↦ rw (other, here) refl
    | inr there ↦ rw (other, there) (time_of-upsert_ne p q ts rest ne)
  ]
]

not_lt_self : (t : Timestamp) → ts_lt t t ≡ false
not_lt_self t = ground arith

not_lt_back : (a b : Timestamp) → ts_lt a b ≡ true → ts_lt b a ≡ false
not_lt_back a b h = ground arith

not_lt_trans : (a b c : Timestamp) → ts_lt a b ≡ false → ts_lt b c ≡ false → ts_lt a c ≡ false
not_lt_trans a b c h k = ground arith

IsLatest-with_time :
    {T : Timestamp → Type 0} (o : Option Timestamp) (ts : Timestamp)
    → IsLatest T o
    → IsLatest (λ t. (t ≡ ts) ⊎ T t) (some (with_time o ts))
IsLatest-with_time {T} none ts h = rw (not_lt_self ts) (
  inl refl,
  λ t' k. elim k [
    | inl e ↦ subst (λ t. ts_lt ts t ≡ false) (sym e) (not_lt_self ts)
    | inr k ↦ absurd (h t' k)
  ],
)
IsLatest-with_time {T} (some t) ts h = elim (Bool-cases (ts_lt ts t)) [
  | inl lt ↦ rw lt (
    inr h.0,
    λ t' k. elim k [
      | inl e ↦ subst (λ x. ts_lt t x ≡ false) (sym e) (not_lt_back ts t lt)
      | inr k ↦ h.1 t' k
    ],
  )
  | inr ge ↦ rw ge (
    inl refl,
    λ t' k. elim k [
      | inl e ↦ subst (λ x. ts_lt ts x ≡ false) (sym e) (not_lt_self ts)
      | inr k ↦ not_lt_trans ts t t' ge (h.1 t' k)
    ],
  )
]

pub upsert-IsLatest :
    (T : Timestamp → Type 0) (p q : Prefix) (ts : Timestamp) (m : Routes)
    → IsLatest T (time_of p m)
    → IsLatest (λ t. ((p ≡ q) × (t ≡ ts)) ⊎ T t) (time_of p (upsert q ts m))
upsert-IsLatest T p q ts m h = elim (Bool-cases (prefix_eq q p)) [
  | inl same ↦
      let e : q ≡ p = (prefix_eq_iff q p).0 same in
      subst (λ x. IsLatest (λ t. ((p ≡ x) × (t ≡ ts)) ⊎ T t) (time_of p (upsert x ts m))) (sym e)
        (subst (IsLatest (λ t. ((p ≡ p) × (t ≡ ts)) ⊎ T t)) (sym (time_of-upsert p ts m)) (
          IsLatest-iff (some (with_time (time_of p m) ts))
            (λ t. (
              λ k. elim k [ inl e ↦ inl (refl, e) | inr k ↦ inr k ],
              λ k. elim k [ inl e ↦ inl e.1 | inr k ↦ inr k ],
            ))
            (IsLatest-with_time (time_of p m) ts h)))
  | inr other ↦
      subst (IsLatest (λ t. ((p ≡ q) × (t ≡ ts)) ⊎ T t)) (sym (time_of-upsert_ne q p ts m other)) (
        IsLatest-iff (time_of p m)
          (λ t. (
            λ k. inr k,
            λ k. elim k [ inl e ↦ let wrong = (prefix_eq_iff q p).1 (sym e.0) in cc | inr k ↦ k ],
          ))
          h)
]
