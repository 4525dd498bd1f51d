-- ===== src/Crypto/Nonce.antt =====
-- `build_nonce` of core/src/crypto.c.
use audio_project.Base.{
  ℕ, ◌+◌, ◌-◌, ◌*◌, ◌%◌, ◌^◌, ◌<◌, bit_and, ◌≡◌, refl, ap, arith, length, get_or, slice,
}
use audio_project.Bits.Mask.{bit_and_mask}
use audio_project.Rtp.Bytes.{byte, u32_be}
use audio_project.Crypto.{build_nonce}

bytes_of_word :
    (v : ℕ) → v % 2 ^ 32 ≡ byte 3 v * 2 ^ 24 + byte 2 v * 2 ^ 16 + byte 1 v * 2 ^ 8 + byte 0 v
bytes_of_word v = omega arith

u32_be_injective : (u v : ℕ) → u32_be u ≡ u32_be v → u % 2 ^ 32 ≡ v % 2 ^ 32
u32_be_injective u v e = omega (
  arith,
  bytes_of_word u,
  bytes_of_word v,
  ap (λ l. get_or l 0 0) e,
  ap (λ l. get_or l 1 0) e,
  ap (λ l. get_or l 2 0) e,
  ap (λ l. get_or l 3 0) e,
)

-- Two nonces are the same only for the same channel, sequence number and low 32 bits of the client:
-- under one key no nonce is used twice, as long as these differ.
pub build_nonce_injective :
    (channel client sequence channel' client' sequence' : ℕ)
    → channel < 2 ^ 32
    → channel' < 2 ^ 32
    → sequence < 2 ^ 32
    → sequence' < 2 ^ 32
    → build_nonce channel client sequence ≡ build_nonce channel' client' sequence'
    → (channel ≡ channel') × (client % 2 ^ 32 ≡ client' % 2 ^ 32) × (sequence ≡ sequence')
unfolding build_nonce
build_nonce_injective c d s c' d' s' hc hc' hs hs' e =
    let low = bit_and d (2 ^ 32 - 1) in
    let low' = bit_and d' (2 ^ 32 - 1) in
    let first = u32_be_injective c c' (ap (λ l. slice l 0 4) e) in
    let second = u32_be_injective low low' (ap (λ l. slice l 4 4) e) in
    let third = u32_be_injective s s' (ap (λ l. slice l 8 4) e) in
    (omega arith, omega (arith, bit_and_mask 32 d, bit_and_mask 32 d'), omega arith)

pub length-build_nonce :
    (channel client sequence : ℕ) → length (build_nonce channel client sequence) ≡ 12
unfolding build_nonce
length-build_nonce channel client sequence = refl
