-- ===== src/Crypto/Table/Lookup.antt =====
-- The key table of core/src/crypto.c as a finite map from channels to keys, of at most 64 channels.
use mathlib.Core.Path.{subst}
use mathlib.Core.Option.{some-injective, none-ne-some}
use audio_project.Base.{
  replicate, ℕ, zero, suc, ◌+◌, ◌≤◌, ◌<◌, List, [], ◌∷◌, ◌≡◌, refl, sym, ap, ◌∙◌, arith, length,
  Option, none, some, true, false, ◌==◌, if◌then◌else◌, set, length-set, pos, minus_one, leb,
  Option-cases, Bool-cases, ◌⊎◌, inl, inr, length-replicate,
}
use audio_project.Crypto.Table.{
  ChannelKey, Context, matches, blank, init, key_among, find_key, slot_among, key_or_derived,
  derive_key, fill_slot, set_channel_key, max_channel_keys,
}

-- 64 entries, of which those below `num_keys` are active.
pub record IsValid (ctx : Context) : Type 0 where
  pub room : length ctx.keys ≡ max_channel_keys
  pub bound : ctx.num_keys ≤ max_channel_keys

-- An entry of another channel comes first or last alike.
passed :
    (x : ChannelKey) (channel c : ℕ)
    → matches x channel ≡ false
    → (new old : Option (List ℕ))
    → (if matches x c then some x.key else (if channel == c then new else old))
      ≡ (if channel == c then new else (if matches x c then some x.key else old))
passed x channel c q new old = elim (Bool-cases (channel == c)) [
  | inl p ↦ ground arith
  | inr p ↦ ground arith
]

-- Filling the entry that the search finds: that channel has the new key, and the others keep theirs.
among-set_found :
    (entries : List ChannelKey) (n slot channel c : ℕ) (key : List ℕ)
    → slot_among entries n channel ≡ some slot
    → key_among (set entries slot (record { channel_id = channel; key = key; active = true })) n c
      ≡ (if channel == c then some key else key_among entries n c)
unfolding slot_among key_among
among-set_found entries zero slot channel c key e = absurd (none-ne-some _ e)
among-set_found [] (suc n) slot channel c key e = absurd (none-ne-some _ e)
among-set_found (x ∷ xs) (suc n) zero channel c key e = elim (Bool-cases (matches x channel)) [
  | inl q ↦ ground arith
  | inr q ↦ elim (Option-cases (slot_among xs n channel)) [
    | inl r ↦ ground arith
    | inr (s, r) ↦ ground arith
  ]
]
among-set_found (x ∷ xs) (suc n) (suc t) channel c key e = elim (Bool-cases (matches x channel)) [
  | inl q ↦ ground arith
  | inr q ↦ elim (Option-cases (slot_among xs n channel)) [
    | inl r ↦ ground arith
    | inr (s, r) ↦
        rw (among-set_found xs n t channel c key (ground arith)) (passed x channel c q _ _)
  ]
]

-- Filling the entry behind the last, where the search finds nothing.
among-set_new :
    (entries : List ChannelKey) (n channel c : ℕ) (key : List ℕ)
    → n < length entries
    → slot_among entries n channel ≡ none
    → key_among
        (set entries n (record { channel_id = channel; key = key; active = true }))
        (suc n)
        c
      ≡ (if channel == c then some key else key_among entries n c)
unfolding slot_among key_among
among-set_new [] n channel c key h e = absurd (omega arith)
among-set_new (x ∷ xs) zero channel c key h e = elim (Bool-cases (channel == c)) [
  | inl q ↦ ground arith
  | inr q ↦ ground arith
]
among-set_new (x ∷ xs) (suc n) channel c key h e = elim (Bool-cases (matches x channel)) [
  | inl q ↦ ground arith
  | inr q ↦ elim (Option-cases (slot_among xs n channel)) [
    | inl r ↦ rw (among-set_new xs n channel c key (omega arith) r) (passed x channel c q _ _)
    | inr (s, r) ↦ ground arith
  ]
]

-- A slot that the search finds lies among the entries, and a channel without one has no key.
slot_among-lt :
    (entries : List ChannelKey) (n slot channel : ℕ)
    → slot_among entries n channel ≡ some slot
    → slot < n
unfolding slot_among
slot_among-lt entries zero slot channel e = absurd (none-ne-some _ e)
slot_among-lt [] (suc n) slot channel e = absurd (none-ne-some _ e)
slot_among-lt (x ∷ xs) (suc n) slot channel e = elim (Option-cases (slot_among xs n channel)) [
  | inl r ↦ ground arith
  | inr (s, r) ↦ ground (arith, slot_among-lt xs n s channel r)
]

no_slot-no_key :
    (entries : List ChannelKey) (n channel : ℕ)
    → slot_among entries n channel ≡ none
    → key_among entries n channel ≡ none
unfolding slot_among key_among
no_slot-no_key entries zero channel e = refl
no_slot-no_key [] (suc n) channel e = refl
no_slot-no_key (x ∷ xs) (suc n) channel e = elim (Option-cases (slot_among xs n channel)) [
  | inl r ↦ ground (arith, no_slot-no_key xs n channel r)
  | inr (s, r) ↦ ground arith
]

fill_slot-IsValid :
    (ctx : Context) (slot channel : ℕ) (key : List ℕ)
    → IsValid ctx
    → IsValid (fill_slot ctx slot channel key)
unfolding fill_slot
fill_slot-IsValid ctx slot channel key v = record {
  room = length-set ctx.keys slot _ ∙ v.room;
  bound = v.bound;
}

set_found :
    (ctx : Context) (slot channel : ℕ) (key : Option (List ℕ)) (bytes : List ℕ)
    → slot_among ctx.keys ctx.num_keys channel ≡ some slot
    → key_or_derived channel key ≡ some bytes
    → set_channel_key (some ctx) channel key ≡ some (pos 0, some (fill_slot ctx slot channel bytes))
unfolding set_channel_key
set_found ctx slot channel key bytes r e = rw (r, set_channel_key, e) refl

set_full :
    (ctx : Context) (channel : ℕ) (key : Option (List ℕ))
    → slot_among ctx.keys ctx.num_keys channel ≡ none
    → leb max_channel_keys ctx.num_keys ≡ true
    → set_channel_key (some ctx) channel key ≡ some (minus_one, some ctx)
unfolding set_channel_key
set_full ctx channel key r full = rw (r, set_channel_key, full) refl

-- The table with one entry more.
grown : Context → ℕ → List ℕ → Context
grown ctx channel bytes =
    fill_slot (record ctx { num_keys = ctx.num_keys + 1 }) ctx.num_keys channel bytes

set_new :
    (ctx : Context) (channel : ℕ) (key : Option (List ℕ)) (bytes : List ℕ)
    → slot_among ctx.keys ctx.num_keys channel ≡ none
    → leb max_channel_keys ctx.num_keys ≡ false
    → key_or_derived channel key ≡ some bytes
    → set_channel_key (some ctx) channel key ≡ some (pos 0, some (grown ctx channel bytes))
unfolding set_channel_key grown
set_new ctx channel key bytes r room e = rw (r, set_channel_key, room, e) refl

grown-find_key :
    (ctx : Context) (channel c : ℕ) (bytes : List ℕ)
    → ctx.num_keys < length ctx.keys
    → slot_among ctx.keys ctx.num_keys channel ≡ none
    → find_key (grown ctx channel bytes) c ≡ (if channel == c then some bytes else find_key ctx c)
unfolding grown fill_slot find_key
grown-find_key ctx channel c bytes h r =
    ap
      (λ n.
        key_among
          (set ctx.keys ctx.num_keys (record { channel_id = channel; key = bytes; active = true }))
          n c)
      (omega arith)
    ∙ among-set_new ctx.keys ctx.num_keys channel c bytes h r

grown-IsValid :
    (ctx : Context) (channel : ℕ) (bytes : List ℕ)
    → IsValid ctx
    → leb max_channel_keys ctx.num_keys ≡ false
    → IsValid (grown ctx channel bytes)
unfolding grown fill_slot
grown-IsValid ctx channel bytes v room = record {
  room = length-set ctx.keys ctx.num_keys _ ∙ v.room;
  bound = ground (arith, v.bound);
}

-- The table as a map from channels to keys: `set_channel_key` with 32 bytes, or with NULL and the
-- bytes derived from the channel, either returns 0, gives that channel exactly these bytes and leaves
-- the key of every other channel, or it returns -1 and changes nothing, and then the table holds 64
-- keys and none for the channel. It keeps the table valid.
pub set_channel_key_refines :
    (ctx : Context) (channel : ℕ) (key : Option (List ℕ)) (bytes : List ℕ)
    → IsValid ctx
    → key_or_derived channel key ≡ some bytes
    → ((ctx' : Context) × (set_channel_key (some ctx) channel key ≡ some (pos 0, some ctx'))
        × IsValid ctx'
        × ((c : ℕ) → find_key ctx' c ≡ (if channel == c then some bytes else find_key ctx c)))
      ⊎ (set_channel_key (some ctx) channel key ≡ some (minus_one, some ctx))
        × (ctx.num_keys ≡ max_channel_keys)
        × (find_key ctx channel ≡ none)
unfolding find_key fill_slot
set_channel_key_refines ctx channel key bytes v e =
    elim (Option-cases (slot_among ctx.keys ctx.num_keys channel)) [
      | inr (slot, r) ↦ inl (
        fill_slot ctx slot channel bytes,
        set_found ctx slot channel key bytes r e,
        fill_slot-IsValid ctx slot channel bytes v,
        λ c. among-set_found ctx.keys ctx.num_keys slot channel c bytes r,
      )
      | inl r ↦ elim (Bool-cases (leb max_channel_keys ctx.num_keys)) [
        | inl full ↦ inr (
          set_full ctx channel key r full,
          ground (arith, v.bound),
          no_slot-no_key ctx.keys ctx.num_keys channel r,
        )
        | inr room ↦ inl (
          grown ctx channel bytes,
          set_new ctx channel key bytes r room e,
          grown-IsValid ctx channel bytes v room,
          λ c. grown-find_key ctx channel c bytes (ground (arith, v.room)) r,
        )
      ]
    ]

-- `ae_crypto_init` gives a valid table without any key, where there is memory.
pub init_lem :
    (ctx : Context) → init true ≡ some ctx → IsValid ctx × ((c : ℕ) → find_key ctx c ≡ none)
unfolding init find_key key_among
init_lem ctx e =
    subst (λ x. IsValid x × ((c : ℕ) → find_key x c ≡ none)) (some-injective _ _ e)
      (record { room = length-replicate max_channel_keys blank; bound = omega arith }, λ c. refl)

pub init_gives : (ctx : Context) × (init true ≡ some ctx) × IsValid ctx
unfolding init
init_gives =
    let made : init true ≡ some (record { keys = replicate max_channel_keys blank; num_keys = 0 }) =
      refl in
    (_, made, (init_lem _ made).0)

-- After a successful call the channel has the bytes that were set.
pub find_key-set_channel_key :
    (ctx ctx' : Context) (channel : ℕ) (key : Option (List ℕ)) (bytes : List ℕ)
    → IsValid ctx
    → key_or_derived channel key ≡ some bytes
    → set_channel_key (some ctx) channel key ≡ some (pos 0, some ctx')
    → find_key ctx' channel ≡ some bytes
find_key-set_channel_key ctx ctx' channel key bytes v e set =
    elim (set_channel_key_refines ctx channel key bytes v e) [
      | inl (new, done, valid, keys) ↦
          let same : ctx' ≡ new =
            some-injective _ _ (ap (λ t. t.1) (some-injective _ _ (sym set ∙ done))) in
          ap (λ t. find_key t channel) same ∙ keys channel ∙ ground arith
      | inr (failed, full, no_key) ↦ cc
    ]

pub key_or_derived-none : (channel : ℕ) → key_or_derived channel none ≡ some (derive_key channel)
unfolding key_or_derived
key_or_derived-none channel = refl
