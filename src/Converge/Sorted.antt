-- ===== src/Converge/Sorted.antt =====
-- The order of findings.
use deviatdd.Prelude.{
  Bool, true, false, not, List, [], ◌∷◌, ◌++◌, select, leb, if◌then◌else◌, ◌≡◌, refl, ap,
  Bool-cases, inl, inr,
}
use deviatdd.Converge.{ConvergenceFinding, is_critical, insert_finding, sort_findings}

abbrev is_other : ConvergenceFinding → Bool
is_other x = not (is_critical x)

abbrev critical_of : List ConvergenceFinding → List ConvergenceFinding
critical_of = select is_critical

abbrev others_of : List ConvergenceFinding → List ConvergenceFinding
others_of = select is_other

insert_finding-critical :
    (x : ConvergenceFinding) (ys : List ConvergenceFinding)
    → is_critical x ≡ true
    → insert_finding x ys ≡ x ∷ ys
unfolding insert_finding
insert_finding-critical x [] h = refl
insert_finding-critical x (y ∷ ys) h = rw h (first (is_critical y))
  where
    first :
        (b : Bool)
        → (if leb 0 (if b then 0 else 1) then x ∷ y ∷ ys else y ∷ insert_finding x ys) ≡ x ∷ y ∷ ys
    first true = refl
    first false = refl

insert_finding-others :
    (x : ConvergenceFinding) (ys : List ConvergenceFinding)
    → is_critical x ≡ false
    → insert_finding x (others_of ys) ≡ x ∷ others_of ys
unfolding insert_finding
insert_finding-others x [] h = refl
insert_finding-others x (y ∷ ys) h = elim (Bool-cases (is_critical y)) [
  | inl p ↦ rw p (insert_finding-others x ys h)
  | inr p ↦ rw (p, h, p) refl
]

insert_finding-other :
    (x : ConvergenceFinding) (ys zs : List ConvergenceFinding)
    → is_critical x ≡ false
    → insert_finding x zs ≡ x ∷ zs
    → insert_finding x (critical_of ys ++ zs) ≡ critical_of ys ++ x ∷ zs
unfolding insert_finding
insert_finding-other x [] zs h k = k
insert_finding-other x (y ∷ ys) zs h k = elim (Bool-cases (is_critical y)) [
  | inl p ↦ rw (p, h, p) (ap (λ zs. y ∷ zs) (insert_finding-other x ys zs h k))
  | inr p ↦ rw p (insert_finding-other x ys zs h k)
]

-- The sorted findings are the CRITICAL ones, in any case of its letters, and then the others, each of
-- the two in the order of before.
pub sort_findings_lem :
    (findings : List ConvergenceFinding)
    → sort_findings findings
      ≡ select is_critical findings ++ select (λ x. not (is_critical x)) findings
unfolding sort_findings
sort_findings_lem [] = refl
sort_findings_lem (x ∷ xs) = rw (sort_findings_lem xs) (elim (Bool-cases (is_critical x)) [
  | inl p ↦ rw p (insert_finding-critical x (critical_of xs ++ others_of xs) p)
  | inr p ↦ rw p (insert_finding-other x xs (others_of xs) p (insert_finding-others x xs p))
])
