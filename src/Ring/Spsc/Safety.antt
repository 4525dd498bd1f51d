-- ===== src/Ring/Spsc/Safety.antt =====
-- Whatever the order of their steps, the two threads of core/src/ring_buffer.c hand frames over as
-- through a queue.
use native.Mathlib.Nat.{le_trans}
use mathlib.Core.List.{append_assoc}
use mathlib.Core.Option.{some-injective}
use mathlib.Core.Path.{subst}
use audio_project.Base.{
  ℕ, suc, ◌+◌, ◌*◌, ◌≤◌, ◌<◌, List, [], ◌∷◌, ◌++◌, some, length, overlay, length-overlay,
  length-slice, ◌≡◌, refl, sym, ap, ap₂, ◌∙◌, arith,
}
use audio_project.Ring.{RingBuf, used, masked, store_frame, load_frame}
use audio_project.Ring.Valid.{IsValid}
use audio_project.Ring.Window.{frame_at, frame_within, window, contents, chunks}
use audio_project.Ring.Write.{store_frame_lem, IsValid-advance}
use audio_project.Ring.Read.{load_frame_lem, IsValid-consume, contents-consume, length-loaded}
use audio_project.Ring.Spsc.{
  idle, filling, resting, draining, System, Step, call_write, store, publish, call_read, load,
  release, Reach, here, later, start,
}
use audio_project.Ring.Spsc.Effects.{
  chunks-suc, chunks-push, window-suc, stored, IsValid-stored, window-stored, filled-stored,
  published, contents-published,
}
use audio_project.Ring.Spsc.Invariant.{
  Inv, Filled, Drained, enter_write-Filled, enter_read-Drained, Drained-stored, Drained-published,
  Filled-consumed,
}

module _ {ℓ} {A : Type ℓ} (s : System A) (inv : Inv s) where
  open inv use {valid, filled, drained, log}
  open (s.ring) use {buffer, capacity, channels, read_pos, write_pos}

  module _ (samples : List A) (frames i : ℕ) (p : s.producer ≡ filling samples frames i) where
    filling_facts : Filled s.ring (filling samples frames i)
    filling_facts = subst (Filled s.ring) p filled

    within_samples : i < frames → i * channels + channels ≤ length samples
    within_samples lt = le_trans (frame_within channels i frames lt) (filling_facts.1)

    -- A producer with frames left stores the next one inside both arrays.
    store-eq :
        i < frames
        → store_frame s.ring samples i buffer
          ≡ some
              (overlay buffer (masked s.ring write_pos i * channels) (frame_at samples channels i))
    store-eq lt = store_frame_lem s.ring valid samples i buffer valid.storage (within_samples lt)

    store-Inv :
        i < frames
        → Inv (record s {
          ring = stored s.ring valid i (frame_at samples channels i);
          producer = filling samples frames (suc i);
        })
    unfolding used
    store-Inv lt =
        let (below, enough, room, same) = filling_facts in
        let frame = frame_at samples channels i in
        let len : length frame ≡ channels =
          length-slice samples (i * channels) channels (within_samples lt) in
        let room_i : used s.ring + i < capacity = omega arith in
        record {
          valid = IsValid-stored s.ring valid i frame room_i len;
          filled = (
            lt,
            enough,
            room,
            filled-stored s.ring valid i frame room_i len
                ∙ ap (λ t. t ++ frame ∷ []) same
                ∙ sym (chunks-suc channels samples i),
          );
          drained = Drained-stored s.ring valid i frame room_i len s.consumer drained;
          log =
              log
              ∙ ap (λ t. s.received ++ t)
                  (sym (window-stored s.ring valid i frame room_i len (used s.ring) (omega arith)));
        }

  publish-Inv :
      (samples : List A) (frames : ℕ)
      → s.producer ≡ filling samples frames frames
      → Inv (record s {
        ring = published s.ring valid frames;
        producer = idle;
        sent = s.sent ++ chunks channels samples 0 frames;
      })
  publish-Inv samples frames p =
      let (below, enough, room, same) = filling_facts samples frames frames p in
      record {
        valid = IsValid-advance s.ring valid [] buffer frames valid.storage;
        filled = tt;
        drained = Drained-published s.ring valid frames room s.consumer drained;
        log =
            ap₂ ◌++◌ log (sym same)
            ∙ append_assoc s.received (contents s.ring)
                (window capacity channels buffer write_pos 0 frames)
            ∙ ap (λ t. s.received ++ t) (sym (contents-published s.ring valid frames room));
      }

  module _ (out : List A) (frames i : ℕ) (p : s.consumer ≡ draining out frames i) where
    draining_facts : Drained s.ring (draining out frames i)
    draining_facts = subst (Drained s.ring) p drained

    within_out : i < frames → i * channels + channels ≤ length out
    within_out lt = le_trans (frame_within channels i frames lt) (draining_facts.1)

    -- A consumer with frames left loads the next one inside both arrays.
    load-eq :
        i < frames
        → load_frame s.ring i out
          ≡ some (overlay out (i * channels) (frame_at buffer channels (masked s.ring read_pos i)))
    load-eq lt = load_frame_lem s.ring valid i out (within_out lt)

    load-Inv :
        i < frames
        → Inv (record s {
          consumer =
              draining
                (overlay out (i * channels) (frame_at buffer channels (masked s.ring read_pos i)))
                frames
                (suc i);
        })
    load-Inv lt =
        let (below, enough, there, same) = draining_facts in
        let frame = frame_at buffer channels (masked s.ring read_pos i) in
        record {
          valid = valid;
          filled = filled;
          drained = (
            lt,
            rw (length-overlay out (i * channels) frame) enough,
            there,
            chunks-push channels out i frame (length-loaded s.ring valid i) (within_out lt)
                ∙ ap (λ t. t ++ frame ∷ []) same
                ∙ sym (window-suc s.ring valid i),
          );
          log = log;
        }

  release-Inv :
      (out : List A) (frames : ℕ)
      → s.consumer ≡ draining out frames frames
      → Inv (record s {
        ring = record (s.ring) { read_pos = masked s.ring s.ring.read_pos frames };
        consumer = resting;
        received = s.received ++ chunks channels out 0 frames;
      })
  release-Inv out frames p =
      let (below, enough, there, same) = draining_facts out frames frames p in
      record {
        valid = IsValid-consume s.ring valid frames;
        filled = Filled-consumed s.ring valid frames there s.producer filled;
        drained = tt;
        log =
            log
            ∙ ap (λ t. s.received ++ t) (contents-consume s.ring valid frames there)
            ∙ sym (append_assoc s.received (window capacity channels buffer read_pos 0 frames) _)
            ∙ ap
                (λ t.
                  (s.received ++ t)
                  ++ contents (record (s.ring) { read_pos = masked s.ring s.ring.read_pos frames }))
                (sym same);
      }

Step-Inv {ℓ} : {A : Type ℓ} {s t : System A} → Step s t → Inv s → Inv t
Step-Inv (call_write {s} samples wanted p enough) inv = record {
  valid = inv.valid;
  filled = enter_write-Filled s.ring inv.valid samples wanted enough;
  drained = inv.drained;
  log = inv.log;
}
Step-Inv (store {s} samples frames i buffer p lt e) inv =
    subst
      (λ b. Inv (record s {
        ring = record (s.ring) { buffer = b };
        producer = filling samples frames (suc i);
      }))
      (some-injective _ _ (sym (store-eq s inv samples frames i p lt) ∙ e))
      (store-Inv s inv samples frames i p lt)
Step-Inv (publish {s} samples frames p) inv = publish-Inv s inv samples frames p
Step-Inv (call_read {s} out wanted p enough) inv = record {
  valid = inv.valid;
  filled = inv.filled;
  drained = enter_read-Drained s.ring inv.valid out wanted enough;
  log = inv.log;
}
Step-Inv (load {s} out frames i out' p lt e) inv =
    subst (λ b. Inv (record s { consumer = draining b frames (suc i) }))
      (some-injective _ _ (sym (load-eq s inv out frames i p lt) ∙ e))
      (load-Inv s inv out frames i p lt)
Step-Inv (release {s} out frames p) inv = release-Inv s inv out frames p

start-Inv {ℓ} : {A : Type ℓ} (rb : RingBuf A) → IsValid rb → Inv (start rb)
unfolding start
start-Inv rb v = record { valid = v; filled = tt; drained = tt; log = refl }

Reach-Inv {ℓ} :
    {A : Type ℓ} {rb : RingBuf A} {s : System A} → IsValid rb → Reach (start rb) s → Inv s
Reach-Inv {rb = rb} v here = start-Inv rb v
Reach-Inv v (later r st) = Step-Inv st (Reach-Inv v r)

-- From a valid ring, after any interleaving of the steps of one producer and one consumer, the ring is
-- valid and the frames of the writes that have returned are, in their order, those of the reads that
-- have returned followed by the frames still in the ring: none is lost, doubled, torn or out of turn.
pub spsc_fifo {ℓ} :
    {A : Type ℓ} {rb : RingBuf A} {s : System A}
    → IsValid rb
    → Reach (start rb) s
    → IsValid s.ring × (s.sent ≡ s.received ++ contents s.ring)
spsc_fifo v r = let inv = Reach-Inv v r in (inv.valid, inv.log)

-- In every state that a valid ring comes to by such steps a producer with frames left can store the next one, and a consumer with frames
-- left can load the next one: no interleaving makes either access leave its arrays.
pub spsc_never_stuck {ℓ} :
    {A : Type ℓ} {rb : RingBuf A} {s : System A}
    → IsValid rb
    → Reach (start rb) s
    → ((samples : List A) (frames i : ℕ)
        → s.producer ≡ filling samples frames i
        → i < frames
        → (buffer : List A) × (store_frame s.ring samples i s.ring.buffer ≡ some buffer))
      × ((out : List A) (frames i : ℕ)
          → s.consumer ≡ draining out frames i
          → i < frames
          → (out' : List A) × (load_frame s.ring i out ≡ some out'))
spsc_never_stuck {s = s} v r =
    let inv = Reach-Inv v r in
    (
      λ samples frames i p lt. (_, store-eq s inv samples frames i p lt),
      λ out frames i p lt. (_, load-eq s inv out frames i p lt),
    )
