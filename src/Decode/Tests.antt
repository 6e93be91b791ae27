-- ===== src/Decode/Tests.antt =====
-- The decoding of numerals at a concrete value.
use io_t_billing_service.Base.{ℕ, ◌≡◌, refl, false, [], none, some, text, negsuc}
use io_t_billing_service.Js.{decimal_ℤ, decimal}
use io_t_billing_service.Decode.Values.{plain, str, Sdk}
use io_t_billing_service.Decode.Functions.{scval_to_bigint}
use io_t_billing_service.Decode.Numerals.{scval_to_bigint-decimal_ℤ}

abbrev no_xdr : Sdk ℕ
no_xdr = record { to_native = λ x. none; is_vec = λ x. false; vec = λ x. [] }

scval_to_bigint-decimal_ℤ_example :
    scval_to_bigint no_xdr (plain (some (text "i128")) (str (decimal_ℤ (negsuc 41))))
    ≡ some (negsuc 41)
scval_to_bigint-decimal_ℤ_example =
    scval_to_bigint-decimal_ℤ no_xdr (some (text "i128")) (negsuc 41)

printed : decimal_ℤ (negsuc 41) ≡ text "-42"
unfolding decimal_ℤ decimal
printed = refl
