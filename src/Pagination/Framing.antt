-- ===== src/Pagination/Framing.antt =====
-- pagination.rs: the message that a cursor's tag is computed from, in `Pager::tag`.
use flatbed.Base.{
  ℕ, ◌+◌, ◌*◌, ◌^◌, ◌<◌, ◌≡◌, refl, sym, ◌∙◌, ap, arith, [], ◌∷◌, ◌++◌, length, append_inj, All,
}
use mathlib.Core.List.{append_assoc}
use flatbed.Pagination.{Bytes, Binding, be_bytes, framed, signed, label}

-- The number that big-endian bytes stand for.
be_value : Bytes → ℕ
be_value [] = 0
be_value (b ∷ bs) = b * 256 ^ length bs + be_value bs

eight : (n : ℕ) → n < 2 ^ 64 → be_value (be_bytes 8 n) ≡ n
unfolding be_value
eight n h = omega arith

framed-inj :
    (a b xs ys : Bytes)
    → length a < 2 ^ 64
    → length b < 2 ^ 64
    → framed a ++ xs ≡ framed b ++ ys
    → (a ≡ b) × (xs ≡ ys)
unfolding framed
framed-inj a b xs ys h k e =
    let n = length a in
    let m = length b in
    let flat = sym (append_assoc (be_bytes 8 n) a xs) ∙ e ∙ append_assoc (be_bytes 8 m) b ys in
    let (size, rest) = append_inj (be_bytes 8 n) (be_bytes 8 m) (a ++ xs) (b ++ ys) refl flat in
    let same : n ≡ m = sym (eight n h) ∙ ap be_value size ∙ eight m k in
    append_inj a b xs ys same rest

abbrev pub IsShort : Bytes → Type 0
IsShort part = length part < 2 ^ 64

-- Two messages that tags are computed from are equal only if method, path, caller and payload are
-- all equal, where each of these is shorter than 2^64 bytes.
pub signed-inj :
    (a b : Binding) (xs ys : Bytes)
    → All IsShort (a.method ∷ a.path ∷ a.caller ∷ xs ∷ [])
    → All IsShort (b.method ∷ b.path ∷ b.caller ∷ ys ∷ [])
    → signed a xs ≡ signed b ys
    → (a ≡ b) × (xs ≡ ys)
unfolding signed
signed-inj a b xs ys (m, (p, (c, (x, _)))) (m', (p', (c', (x', _)))) e =
    let last₁ = framed xs in
    let last₂ = framed ys in
    let tail₁ = framed a.caller ++ last₁ in
    let tail₂ = framed b.caller ++ last₂ in
    let rest₁ = framed a.path ++ tail₁ in
    let rest₂ = framed b.path ++ tail₂ in
    let (_, e₀) =
      append_inj label label (framed a.method ++ rest₁) (framed b.method ++ rest₂) refl e in
    let (method, e₁) = framed-inj a.method b.method rest₁ rest₂ m m' e₀ in
    let (path, e₂) = framed-inj a.path b.path tail₁ tail₂ p p' e₁ in
    let (caller, e₃) = framed-inj a.caller b.caller last₁ last₂ c c' e₂ in
    let body = framed-inj xs ys [] [] x x' (ap (λ q. q ++ []) e₃) in
    (λ i. record { method = method i; path = path i; caller = caller i }, body.0)
