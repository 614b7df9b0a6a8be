-- ===== src/Errors/Classes.antt =====
-- What the classification of errors promises to the code that retries.
use ai_gen.Prelude.{ℕ, ◌≤◌, ◌<◌, ◌≡◌, ◌⊎◌, ◌↔◌, Bool, true, Option, arith}
use ai_gen.Errors.{classify_status, is_retryable}

-- Exactly the statuses 408, 425, 429 and 500 to 599 are retried, whatever the other arguments are.
pub is_retryable-classify_status :
    (status : ℕ) (retry_after : Option ℕ) (worked : Bool)
    → (is_retryable (classify_status status retry_after worked) ≡ true)
      ↔ ((status ≡ 408) ⊎ (status ≡ 425) ⊎ (status ≡ 429) ⊎ ((500 ≤ status) × (status < 600)))
unfolding classify_status
is_retryable-classify_status s r w = (λ h. ground arith, λ h. ground arith)
