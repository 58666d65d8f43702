-- ===== src/Identifiers/Tests.antt =====
-- A ULID of 2016, and the theorems at concrete inputs.
use pr_reliability_platform.Prelude.{true, codes, ◌≡◌, refl, arith, text_lt}
use pr_reliability_platform.Webhooks.Checks.{is_ulid}
use pr_reliability_platform.Identifiers.{
  new_ulid, encode, digit, decode, ulid_value, decode-new_ulid, new_ulid-is_ulid,
  new_ulid-increasing,
}

ulid_of_2016 : new_ulid 1469918176385 0 ≡ codes "01ARYZ6S410000000000000000"
unfolding new_ulid encode digit
ulid_of_2016 = refl

decode-new_ulid_example : decode 0 (new_ulid 1469918176385 7) ≡ ulid_value 1469918176385 7
decode-new_ulid_example = decode-new_ulid 1469918176385 7 (omega arith) (omega arith)

new_ulid-is_ulid_example : is_ulid (new_ulid 1469918176385 7) ≡ true
new_ulid-is_ulid_example = new_ulid-is_ulid 1469918176385 7 (omega arith) (omega arith)

new_ulid-increasing_example : text_lt (new_ulid 1469918176385 7) (new_ulid 1469918176386 5) ≡ true
new_ulid-increasing_example =
    new_ulid-increasing 1469918176385 1469918176386 7 5 (omega arith) (omega arith) (omega arith)
      (omega arith)
