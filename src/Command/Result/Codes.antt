-- ===== src/Command/Result/Codes.antt =====
-- The three tests of a result code.
use module_flow.Prelude.{
  zero, suc, ◌≡◌, refl, ◌↔◌, ◌⊎◌, inl, inr, true, false, int_eq, ℤ, pos, negsuc, arith,
}
use module_flow.Command.Result.{
  failed, async_accept, code_of_flag, is_success, is_error, is_async_accept,
}

-- No code passes two of the tests isSuccess, isError and isAsyncAccept, and the codes that pass none
-- of them are FAILED and ASYNC_ACCEPT, the codes that are named for them; so a result made from the
-- flag false, with the code FAILED that is the default, is no error.
pub result_codes :
    (code : ℤ)
    → (((is_success code ≡ false) × (is_error code ≡ false) × (is_async_accept code ≡ false))
        ↔ ((code ≡ failed) ⊎ (code ≡ async_accept)))
      × (is_success code ≡ true → (is_error code ≡ false) × (is_async_accept code ≡ false))
      × (is_error code ≡ true → is_async_accept code ≡ false)
      × (is_error (code_of_flag false failed) ≡ false)
unfolding is_success is_error is_async_accept code_of_flag
result_codes (pos zero) =
    ((λ h. ground arith, λ h. ground arith), λ h. (refl, refl), λ h. refl, refl)
result_codes (pos (suc zero)) = ((λ h. inr refl, λ h. (refl, refl, refl)), λ h. cc, λ h. cc, refl)
result_codes (pos (suc (suc n))) =
    ((λ h. ground arith, λ h. ground arith), λ h. ground arith, λ h. cc, refl)
result_codes (negsuc zero) = ((λ h. inl refl, λ h. (refl, refl, refl)), λ h. cc, λ h. cc, refl)
result_codes (negsuc (suc n)) = ((λ h. ground arith, λ h. ground arith), λ h. cc, λ h. refl, refl)
