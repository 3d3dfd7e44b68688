-- ===== src/Messages/Listed.antt =====
-- Which texts a BGP update lists for which kind of change, apart from the code.
use slash.Base.{◌≡◌, ◌↔◌, inl, inr, refl, Option, none, some, List, [], ◌∷◌, ap, map, subst, sym}
use mathlib.Core.List.Memᴰ.{Memᴰ, head, tail, append_left, append_right, append_cases}
use slash.Prefix.Cidr.{Text}
use slash.Messages.{
  UpdateType, announce, withdraw, Announcement, BgpUpdate, announced_texts, flatten, tagged,
}

-- A text is announced as a prefix of one of the announcements, and withdrawn as one of the
-- withdrawals.
abbrev pub IsListed : BgpUpdate → UpdateType → Text → Type 0
IsListed u announce cidr =
    (announcements : List Announcement) × (a : Announcement) × (u.announcements
      ≡ some announcements)
    × Memᴰ a announcements
    × Memᴰ cidr a.prefixes
IsListed u withdraw cidr =
    (withdrawals : List Text) × (u.withdrawals ≡ some withdrawals) × Memᴰ cidr withdrawals

mem-announced :
    (l : List Announcement) {cidr : Text}
    → Memᴰ cidr (announced_texts l)
    → (a : Announcement) × Memᴰ a l × Memᴰ cidr a.prefixes
mem-announced [] m = elim m [ ]
mem-announced (a ∷ rest) m = elim (append_cases a.prefixes m) [
  | inl here ↦ (a, head refl, here)
  | inr there ↦ let (b, m, in_b) = mem-announced rest there in (b, tail m, in_b)
]

announced-mem :
    (l : List Announcement) (a : Announcement) {cidr : Text}
    → Memᴰ a l
    → Memᴰ cidr a.prefixes
    → Memᴰ cidr (announced_texts l)
announced-mem [] a h m = elim h [ ]
announced-mem (b ∷ rest) a {cidr} (head e) m =
    append_left (announced_texts rest) (subst (λ (c : Announcement). Memᴰ cidr c.prefixes) e m)
announced-mem (b ∷ rest) a (tail h) m = append_right b.prefixes (announced-mem rest a h m)

-- Texts that all have one kind.
mem-kind :
    (kind : UpdateType) (l : List Text) {cidr : Text} {k : UpdateType}
    → Memᴰ {A = Text × UpdateType} (cidr, k) (map (λ t. (t, kind)) l)
    → (k ≡ kind) × Memᴰ cidr l
mem-kind kind [] m = elim m [ ]
mem-kind kind (t ∷ l) (head e) =
    (ap (λ (x : Text × UpdateType). x.1) e, head (ap (λ (x : Text × UpdateType). x.0) e))
mem-kind kind (t ∷ l) (tail m) = let (e, m') = mem-kind kind l m in (e, tail m')

kind-mem :
    (kind : UpdateType) (l : List Text) {cidr : Text}
    → Memᴰ cidr l
    → Memᴰ {A = Text × UpdateType} (cidr, kind) (map (λ t. (t, kind)) l)
kind-mem kind [] m = elim m [ ]
kind-mem kind (t ∷ l) (head e) = head (ap (λ c. (c, kind)) e)
kind-mem kind (t ∷ l) (tail m) = tail (kind-mem kind l m)

announcements-IsListed :
    (u : BgpUpdate) (o : Option (List Announcement)) {cidr : Text}
    → u.announcements ≡ o
    → Memᴰ cidr (announced_texts (flatten o))
    → IsListed u announce cidr
announcements-IsListed u none e m = elim m [ ]
announcements-IsListed u (some l) e m = let (a, m, in_a) = mem-announced l m in (l, a, e, m, in_a)

withdrawals-IsListed :
    (u : BgpUpdate) (o : Option (List Text)) {cidr : Text}
    → u.withdrawals ≡ o
    → Memᴰ cidr (flatten o)
    → IsListed u withdraw cidr
withdrawals-IsListed u none e m = elim m [ ]
withdrawals-IsListed u (some l) e m = (l, e, m)

tagged-IsListed :
    (u : BgpUpdate) (kind : UpdateType) (cidr : Text)
    → Memᴰ (cidr, kind) (tagged u)
    → IsListed u kind cidr
tagged-IsListed u kind cidr m =
    elim (append_cases (map (λ t. (t, announce)) (announced_texts (flatten u.announcements))) m) [
      | inl a ↦
          let (e, m') = mem-kind announce (announced_texts (flatten u.announcements)) a in
          subst (λ k. IsListed u k cidr) (sym e) (announcements-IsListed u u.announcements refl m')
      | inr w ↦
          let (e, m') = mem-kind withdraw (flatten u.withdrawals) w in
          subst (λ k. IsListed u k cidr) (sym e) (withdrawals-IsListed u u.withdrawals refl m')
    ]

IsListed-tagged :
    (u : BgpUpdate) (kind : UpdateType) (cidr : Text)
    → IsListed u kind cidr
    → Memᴰ (cidr, kind) (tagged u)
IsListed-tagged u announce cidr (l, a, e, m, in_a) =
    append_left (map (λ t. (t, withdraw)) (flatten u.withdrawals)) (
      kind-mem announce (announced_texts (flatten u.announcements))
        (rw e (announced-mem l a m in_a)))
IsListed-tagged u withdraw cidr (l, e, m) =
    append_right (map (λ t. (t, announce)) (announced_texts (flatten u.announcements)))
      (kind-mem withdraw (flatten u.withdrawals) (rw e m))

-- The texts with their kinds are those that the update lists for these kinds.
pub tagged_lem :
    (u : BgpUpdate) (kind : UpdateType) (cidr : Text)
    → Memᴰ (cidr, kind) (tagged u) ↔ IsListed u kind cidr
tagged_lem u kind cidr = (tagged-IsListed u kind cidr, IsListed-tagged u kind cidr)
