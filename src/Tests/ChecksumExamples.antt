-- ===== src/Tests/ChecksumExamples.antt =====
-- source/checksums.c with a sum as the checksum.
use aws_crt_nodejs.Base.{ℕ, ◌+◌, ◌≡◌, refl, inr, Option, some, [], ◌∷◌, true}
use aws_crt_nodejs.Napi.{got, World}
use aws_crt_nodejs.Ownership.{SameLive}
use aws_crt_nodejs.ByteBuf.{byte_buf_init_from_napi}
use aws_crt_nodejs.Checksums.{Checksum, crc_common}
use aws_crt_nodejs.Checksums.Whole.{Composes, crc_common-SameLive, crc_common-value}
use aws_crt_nodejs.Tests.Samples.{text, amount, broken, sample_napi, sample_memory, idle}

abbrev sum : Checksum
sum [] v = v
sum (x ∷ xs) v = sum xs (v + x)

sum-Composes : Composes sum
sum-Composes [] ys v = refl
sum-Composes (x ∷ xs) ys v = sum-Composes xs ys (v + x)

crc_common-SameLive_example :
    (r : Option ℕ) × (w : World sample_memory) × (crc_common sample_napi sample_memory sum
        (λ v. true)
        (got (broken ∷ amount 3 ∷ []))
        idle
      ≡ some (r, w))
    × SameLive sample_memory [] w.store
crc_common-SameLive_example =
    crc_common-SameLive sample_napi sample_memory sum (λ v. true) sum-Composes
      (got (broken ∷ amount 3 ∷ [])) idle

crc_common-value_example :
    (w : World sample_memory) × (crc_common sample_napi sample_memory sum
        (λ v. true)
        (got (text (1 ∷ 2 ∷ []) ∷ amount 3 ∷ []))
        idle
      ≡ some (some 6, w))
    × (w.thrown ≡ [])
unfolding byte_buf_init_from_napi
crc_common-value_example =
    crc_common-value sample_napi sample_memory sum (λ v. true) sum-Composes (text (1 ∷ 2 ∷ []))
      (amount 3) idle 3 refl (inr (inr (refl, refl))) (λ v. refl)
