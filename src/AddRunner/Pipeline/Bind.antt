-- ===== src/AddRunner/Pipeline/Bind.antt =====
-- Inversion of the sequencing of add-runner's steps (`await` in add-runner/src).
use github_runner_autoscaler.Common.{◌≡◌, ◌⊎◌, inl, inr, arith, Result, ok, err, Result-cases}
use github_runner_autoscaler.AddRunner.Runner.{Failure, M, World}
use github_runner_autoscaler.AddRunner.Pipeline.{◌>>=◌}

-- A sequence that succeeds is its second part, run on what the first part returned and left.
pub bind-ok :
    {A B : Type 0} (m : M A) (f : A → M B) (w : World) {b : B}
    → ((m >>= f) w).0 ≡ ok b
    → (a : A) × ((m w).0 ≡ ok a) × ((m >>= f) w ≡ f a (m w).1)
bind-ok m f w h = elim (Result-cases (m w).0) [
  | inl (a, e) ↦ (a, e, rw (e, ◌>>=◌))
  | inr (x, e) ↦ absurd (ground (arith, e))
]

pub ok-injective {ℓ κ} :
    {E : Type ℓ} {A : Type κ} {a b : A} → ◌≡◌ {A = Result E A} (ok a) (ok b) → a ≡ b
ok-injective h = cc

-- A sequence that fails does so in its first part, and stops there, or in its second part.
pub bind-err :
    {A B : Type 0} (m : M A) (f : A → M B) (w : World) {x : Failure}
    → ((m >>= f) w).0 ≡ err x
    → (((m w).0 ≡ err x) × (((m >>= f) w).1 ≡ (m w).1))
      ⊎ ((a : A) × ((m w).0 ≡ ok a) × ((m >>= f) w ≡ f a (m w).1))
bind-err m f w h = elim (Result-cases (m w).0) [
  | inl (a, e) ↦ inr (a, e, rw (e, ◌>>=◌))
  | inr (x, e) ↦ inl (ground (arith, e), rw (e, ◌>>=◌))
]

-- A first part that succeeds hands over to the second.
pub bind_of_ok :
    {A B : Type 0} (m : M A) (f : A → M B) (w : World) {a : A}
    → (m w).0 ≡ ok a
    → (m >>= f) w ≡ f a (m w).1
bind_of_ok m f w e = rw (e, ◌>>=◌)
