-- ===== src/VaultPath/Keys.antt =====
-- Keys made by `join` are normalised, and `split` takes them apart again.
use mathlib.Core.List.{reverse-append, reverse-cons, append_assoc}
use secret_control_panel.Base.{
  if◌then◌else◌, Bool-cases, Option-cases, ◌==◌, nat_eq, eq_iff, eq_refl, ne_of_beq, list_beq, ℕ,
  ◌≡◌, refl, sym, ap, subst, ◌∙◌, ◌≢◌, ◌⊎◌, inl, inr, some, [], ◌∷◌, ◌++◌, reverse, arith,
}
use secret_control_panel.Text.{Str, str_eq, cut_byte, count}
use secret_control_panel.Text.Trim.{
  NoHead, NoEdge, NoHead-append, trim-NoEdge, trim_of-NoEdge, trim_idem,
}
use secret_control_panel.VaultPath.{normalize, join, split}

-- The text has no "/" at either end, as a stored or looked-up key.
abbrev pub IsNormal : Str → Type 0
IsNormal = NoEdge b'/'

pub normalize-IsNormal : (s : Str) → IsNormal (normalize s)
unfolding normalize
normalize-IsNormal s = trim-NoEdge s b'/'

pub normalize_of-IsNormal : (s : Str) → IsNormal s → normalize s ≡ s
unfolding normalize
normalize_of-IsNormal s h = trim_of-NoEdge s b'/' h

pub normalize_idem : (s : Str) → normalize (normalize s) ≡ normalize s
unfolding normalize
normalize_idem s = trim_idem s b'/'

reverse_ne : (s : Str) → s ≢ [] → reverse s ≢ []
reverse_ne [] n h = n refl
reverse_ne (x ∷ s) n h = ground (arith, reverse-cons x s, snoc_ne (reverse s) x)
  where
    snoc_ne : (t : Str) (y : ℕ) → t ++ y ∷ [] ≢ []
    snoc_ne [] y e = cc
    snoc_ne (z ∷ t) y e = cc

reverse_joined : (m p : Str) → reverse (m ++ b'/' ∷ p) ≡ reverse p ++ (b'/' ∷ reverse m)
reverse_joined m p =
    reverse-append m (b'/' ∷ p)
    ∙ ap (λ t. t ++ reverse m) (reverse-cons b'/' p)
    ∙ append_assoc (reverse p) (b'/' ∷ []) (reverse m)

joined-IsNormal : (m p : Str) → m ≢ [] → p ≢ [] → IsNormal m → IsNormal p → IsNormal (m ++ b'/' ∷ p)
joined-IsNormal m p hm hp (m0, m1) (p0, p1) = (
  NoHead-append b'/' m (b'/' ∷ p) hm m0,
  rw (reverse_joined m p) (NoHead-append b'/' (reverse p) (b'/' ∷ reverse m) (reverse_ne p hp) p1),
)

-- The three cases of `join`.
pub join_cases :
    (mount path : Str)
    → ((normalize mount ≡ []) × (join mount path ≡ normalize path))
      ⊎ ((normalize path ≡ []) × (join mount path ≡ normalize mount))
      ⊎ ((normalize mount ≢ [])
          × (normalize path ≢ [])
          × (join mount path ≡ normalize mount ++ b'/' ∷ normalize path))
unfolding join
join_cases mount path = elim (Bool-cases (normalize mount == [])) [
  | inl e ↦ inl ((eq_iff (normalize mount) []).0 e, rw e)
  | inr e ↦ elim (Bool-cases (normalize path == [])) [
    | inl f ↦ inr (inl ((eq_iff (normalize path) []).0 f, rw (e, f)))
    | inr f ↦
        inr (inr (ne_of_beq (normalize mount) [] e, ne_of_beq (normalize path) [] f, rw (e, f)))
  ]
]

-- Whatever slashes the inputs carry, the key that `join` makes has none at its ends.
pub join-IsNormal : (mount path : Str) → IsNormal (join mount path)
join-IsNormal mount path = elim (join_cases mount path) [
  | inl (_, e) ↦ rw e (normalize-IsNormal path)
  | inr (inl (_, e)) ↦ rw e (normalize-IsNormal mount)
  | inr (inr (hm, hp, e)) ↦ rw e (
      joined-IsNormal (normalize mount) (normalize path) hm hp (normalize-IsNormal mount)
        (normalize-IsNormal path))
]

-- `join` looks at its arguments only through `normalize`.
pub join-normalize : (mount path : Str) → join (normalize mount) (normalize path) ≡ join mount path
unfolding join
join-normalize mount path = rw (normalize_idem mount, normalize_idem path)

cut_byte-append : (m p : Str) (c : ℕ) → count m c ≡ 0 → cut_byte (m ++ c ∷ p) c ≡ some (m, p)
unfolding cut_byte count
cut_byte-append [] p c h = rw (eq_refl c)
cut_byte-append (x ∷ m) p c h = ground (arith, cut_byte-append m p c)

-- For a mount and a path that are not empty once their outer slashes are trimmed, where the mount then
-- has no "/" in it, the key that they make splits into the two without their outer slashes.
pub split-join :
    (mount path : Str)
    → normalize mount ≢ []
    → normalize path ≢ []
    → count (normalize mount) b'/' ≡ 0
    → split (join mount path) ≡ (normalize mount, normalize path)
unfolding split
split-join mount path hm hp single = elim (join_cases mount path) [
  | inl (e, _) ↦ absurd (hm e)
  | inr (inl (e, _)) ↦ absurd (hp e)
  | inr (inr (_, _, e)) ↦ rw (
    normalize_of-IsNormal (join mount path) (join-IsNormal mount path),
    e,
    cut_byte-append (normalize mount) (normalize path) b'/' single,
  )
]

cut_byte_whole :
    (s : Str) (c : ℕ) {m p : Str} → cut_byte s c ≡ some (m, p) → (s ≡ m ++ c ∷ p) × (count m c ≡ 0)
unfolding cut_byte count
cut_byte_whole [] c h = cc
cut_byte_whole (x ∷ s) c {m} {p} h = elim (Bool-cases (x == c)) [
  | inl e ↦ ground (arith, eq_iff x c)
  | inr e ↦ elim (Option-cases (cut_byte s c)) [
    | inl f ↦ absurd (ground arith)
    | inr ((m', p'), f) ↦ ground (arith, cut_byte_whole s c {m = m'} {p = p'} f)
  ]
]

-- The text that `split` came from: its two parts with "/" between, or the mount alone.
abbrev pub glue : Str × Str → Str
glue (mount, path) = if path == [] then mount else mount ++ b'/' ∷ path

glue_parts : (m p : Str) → IsNormal (m ++ b'/' ∷ p) → glue (m, p) ≡ m ++ b'/' ∷ p
unfolding list_beq
glue_parts m [] (_, n) =
    absurd (unfold list_beq in subst (NoHead b'/') (reverse_joined m []) n refl)
glue_parts m (x ∷ p) n = refl

-- Splitting loses nothing of a key but the slashes at its ends.
pub glue-split : (key : Str) → glue (split key) ≡ normalize key
unfolding split list_beq
glue-split key = elim (Option-cases (cut_byte (normalize key) b'/')) [
  | inl e ↦ rw e
  | inr ((m, p), e) ↦
      let (whole, _) = cut_byte_whole (normalize key) b'/' e in
      rw e (glue_parts m p (subst IsNormal whole (normalize-IsNormal key)) ∙ sym whole)
]
