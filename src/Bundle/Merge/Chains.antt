-- ===== src/Bundle/Merge/Chains.antt =====
-- internal/bundle/merge.go: the comparison of two routing chains by their nodes.
use text.Mathlib.Text.{◌==◌ as str_eq}
use text.Mathlib.TextEquality.{eq_iff}
use api_gateway.Prelude.{
  ◌≡◌, ◌↔◌, refl, Bool, true, false, List, [], ◌∷◌, String, arith, if◌then◌else◌, Bool-cases, inl,
  inr, subst, sym,
}

-- The rest of `short` stands for the index `i`.
unfoldable pub is_subsequence : List String → List String → Bool
is_subsequence [] long = true
is_subsequence (s ∷ short) [] = false
is_subsequence (s ∷ short) (x ∷ long) =
    let found = is_subsequence short long in
    let later = is_subsequence (s ∷ short) long in if str_eq s x then found else later

-- `short` is `long` with some elements left out.
pub data IsSublist : List String → List String → Type 0 where
  done : IsSublist [] []
  keep :
      (x : String) {short long : List String}
      → IsSublist short long
      → IsSublist (x ∷ short) (x ∷ long)
  skip : (x : String) {short long : List String} → IsSublist short long → IsSublist short (x ∷ long)

sublist_nil : (long : List String) → IsSublist [] long
sublist_nil [] = IsSublist.done
sublist_nil (x ∷ long) = IsSublist.skip x (sublist_nil long)

subsequence_sound :
    (short long : List String) → is_subsequence short long ≡ true → IsSublist short long
unfolding is_subsequence
subsequence_sound [] long h = sublist_nil long
subsequence_sound (s ∷ short) [] h = cc
subsequence_sound (s ∷ short) (x ∷ long) h = elim (Bool-cases (str_eq s x)) [
  | inl e ↦
      subst (λ y. IsSublist (y ∷ short) (x ∷ long)) (sym ((eq_iff s x).0 e))
        (IsSublist.keep x (subsequence_sound short long (ground (arith, e, h))))
  | inr e ↦ IsSublist.skip x (subsequence_sound (s ∷ short) long (ground (arith, e, h)))
]

-- The greedy scan loses nothing by a shorter pattern.
subsequence_tail :
    (s : String) (short long : List String)
    → is_subsequence (s ∷ short) long ≡ true
    → is_subsequence short long ≡ true
unfolding is_subsequence
subsequence_tail s [] long h = refl
subsequence_tail s (t ∷ short) [] h = cc
subsequence_tail s (t ∷ short) (x ∷ long) h =
    ground (arith, subsequence_tail s (t ∷ short) long, subsequence_tail t short long)

subsequence_skip :
    (x : String) (short long : List String)
    → is_subsequence short long ≡ true
    → is_subsequence short (x ∷ long) ≡ true
unfolding is_subsequence
subsequence_skip x [] long h = refl
subsequence_skip x (s ∷ short) long h = ground (arith, subsequence_tail s short long h)

subsequence_complete :
    {short long : List String} → IsSublist short long → is_subsequence short long ≡ true
unfolding is_subsequence
subsequence_complete done = refl
subsequence_complete (keep x p) = ground (arith, eq_iff x x, subsequence_complete p)
subsequence_complete (skip x {short} {long} p) =
    subsequence_skip x short long (subsequence_complete p)

-- isSubsequence decides whether the short chain is the long one with some nodes left out.
pub is_subsequence_iff :
    (short long : List String) → (is_subsequence short long ≡ true) ↔ IsSublist short long
is_subsequence_iff short long = (subsequence_sound short long, λ p. subsequence_complete p)
