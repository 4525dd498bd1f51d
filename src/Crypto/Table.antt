-- ===== src/Crypto/Table.antt =====
-- The key table of core/src/crypto.c: `channel_key_t`, `struct ae_crypto`, and the functions on them
-- that both backends have.
pub mod Lookup
use mathlib.Core.Option
use audio_project.Base.{
  ℕ, zero, suc, ◌+◌, ◌*◌, ◌/◌, ◌%◌, ◌^◌, bit_and, bit_xor, List, [], ◌∷◌, Option, none, some, Bool,
  true, false, ◌&&◌, ℤ, pos, minus_one, leb, ◌==◌, if◌then◌else◌, set, replicate, read_at, ◌>>=◌,
}

-- MAX_CHANNEL_KEYS
abbrev pub max_channel_keys : ℕ
max_channel_keys = 64

-- AE_CRYPTO_KEY_SIZE
abbrev pub key_size : ℕ
key_size = 32

-- `channel_key_t`
pub record ChannelKey : Type 0 where
  pub channel_id : ℕ
  pub key : List ℕ
  pub active : Bool

-- `struct ae_crypto`
pub record Context : Type 0 where
  pub keys : List ChannelKey
  pub num_keys : ℕ

abbrev pub blank : ChannelKey
blank = record { channel_id = 0; key = replicate key_size 0; active = false }

-- The flag says whether the `calloc` succeeds.
pub init : Bool → Option Context
init memory =
    if memory then some (record { keys = replicate max_channel_keys blank; num_keys = 0 }) else none

-- `keys[i].active && keys[i].channel_id == channel_id`
abbrev pub matches : ChannelKey → ℕ → Bool
matches entry channel = entry.active && (entry.channel_id == channel)

-- The loop of `find_key`, with `left` entries to go.
unfoldable pub key_among : List ChannelKey → ℕ → ℕ → Option (List ℕ)
key_among entries zero channel = none
key_among [] (suc left) channel = none
key_among (entry ∷ entries) (suc left) channel =
    let rest = key_among entries left channel in
    if matches entry channel then some entry.key else rest

unfoldable pub find_key : Context → ℕ → Option (List ℕ)
find_key ctx channel = key_among ctx.keys ctx.num_keys channel

-- The loop of `derive_key_from_channel`, with `left` bytes to go.
unfoldable pub key_bytes : ℕ → ℕ → List ℕ
key_bytes zero seed = []
key_bytes (suc left) seed =
    let seed' = (seed * 1103515245 + 12345) % 2 ^ 32 in
    bit_and (seed' / 2 ^ 16) 0xff ∷ key_bytes left seed'

unfoldable pub derive_key : ℕ → List ℕ
derive_key channel = key_bytes key_size (bit_xor channel 0xdeadbeef)

-- The search for a slot in `ae_crypto_set_channel_key`, with `left` entries to go.
unfoldable pub slot_among : List ChannelKey → ℕ → ℕ → Option ℕ
slot_among entries zero channel = none
slot_among [] (suc left) channel = none
slot_among (entry ∷ entries) (suc left) channel =
    let rest = slot_among entries left channel in
    if matches entry channel then some 0 else Option.map suc rest

-- The 32 bytes of the caller's key, or derived ones in place of a NULL.
unfoldable pub key_or_derived : ℕ → Option (List ℕ) → Option (List ℕ)
key_or_derived channel none = some (derive_key channel)
key_or_derived channel (some key) = read_at key 0 key_size

-- The assignments to the entry `slot`.
unfoldable pub fill_slot : Context → ℕ → ℕ → List ℕ → Context
fill_slot ctx slot channel key = record ctx {
  keys = set ctx.keys slot (record { channel_id = channel; key = key; active = true });
}

unfoldable pub set_channel_key : Option Context → ℕ → Option (List ℕ) → Option (ℤ × Option Context)
set_channel_key none channel key = some (minus_one, none)
set_channel_key (some ctx) channel key = elim (slot_among ctx.keys ctx.num_keys channel) [
  | some slot ↦ do
    bytes ← key_or_derived channel key
    some (pos 0, some (fill_slot ctx slot channel bytes))
  | none ↦ if leb max_channel_keys ctx.num_keys then some (minus_one, some ctx) else do
    bytes ← key_or_derived channel key
    some (
      pos 0,
      some (fill_slot (record ctx { num_keys = ctx.num_keys + 1 }) ctx.num_keys channel bytes),
    )
]
