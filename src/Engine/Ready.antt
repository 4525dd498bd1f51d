-- ===== src/Engine/Ready.antt =====
-- What `ae_engine_create` of core/src/audio_engine.c makes.
use audio_project.Base.{
  ℕ, zero, suc, ◌*◌, Option, some, Bool, true, false, ℤ, pos, length, length-replicate, ◌≡◌, refl,
  sym, ap₂, ◌∙◌, arith, ◌>>=◌, inl, inr, replicate, [],
}
use audio_project.Float.{Floats}
use audio_project.Opus.{Codec, OpusEncoder, encoder_create}
use audio_project.Opus.Config.{encoder_create_lem}
use audio_project.Network.{Net}
use audio_project.Network.Valid as Sockets
use audio_project.Network.Reach.{nothing_held, create_gives}
use audio_project.Crypto.Table.{Context}
use audio_project.Crypto.Table.Lookup as Lookup
use audio_project.Mixer.{Mixer}
use audio_project.Mixer.Sample as Sampled
use audio_project.Mixer.Volume.{fresh_mixer}
use audio_project.Ring.{RingBuf, free_space}
use audio_project.Ring as Ring
use audio_project.Ring.Valid as Rings
use audio_project.Ring.Window.{contents}
use audio_project.Ring.Create.{create_lem}
use audio_project.Streams.Search.{count}
use audio_project.Engine.{AeEngine, World, Config, Creation, create, config_from, assembled, unused}
use audio_project.Engine.Session.Valid.{Valid}

-- A ring of stereo frames.
pub record Stereo {F : Type 0} (ring : Option (RingBuf F)) : Type 0 where
  pub rb : RingBuf F
  pub has_ring : ring ≡ some rb
  pub ring_valid : Rings.IsValid rb
  pub stereo : rb.channels ≡ 2

-- The rings, the mixer and the sizes of the work buffers.
pub record Ready (floats : Floats) (codec : Codec floats.F) (e : AeEngine codec) : Type 0 where
  pub capture : Stereo e.capture_ring
  pub playback : Stereo e.playback_ring
  pub mixing : Mixer floats.F
  pub has_mixer : e.mixer ≡ some mixing
  pub mixer_valid : Sampled.IsValid floats mixing
  pub frame_room : length e.capture_frame ≡ 960 * 2
  pub output_room : length e.mix_output ≡ 960 * 2
  pub encode_room : length e.encode_buf ≡ 1400
  pub recv_room : length e.recv_buf ≡ 1400

-- Every allocation succeeds, and libopus gives an encoder.
pub record Granted {E : Type 0} (answers : Creation E) (opus : E) : Type 0 where
  pub engine : answers.engine_memory ≡ true
  pub encoder : answers.encoder_memory ≡ true
  pub no_error : answers.opus_error ≡ pos 0
  pub made : answers.opus ≡ some opus
  pub capture_ok : (answers.capture_struct ≡ true) × (answers.capture_samples ≡ true)
  pub playback_ok : (answers.playback_struct ≡ true) × (answers.playback_samples ≡ true)
  pub mixer_ok : answers.mixer_memory ≡ true
  pub crypto_ok : answers.crypto_memory ≡ true
  pub network_ok : answers.network_memory ≡ true

abbrev pub idle_world : World
idle_world = record { system = nothing_held; fired = [] }

module _ (floats : Floats) (codec : Codec floats.F) where
  open floats use {F, zero_f}
  open codec use {Encoder}

  count-unused : (n : ℕ) → count (replicate n (unused floats codec)) ≡ 0
  unfolding count
  count-unused zero = refl
  count-unused (suc n) = count-unused n

  stereo_ring :
      (struct_ok samples_ok : Bool)
      → struct_ok ≡ true
      → samples_ok ≡ true
      → (rb : RingBuf F) × (Ring.create zero_f struct_ok samples_ok (pos (64 * 960)) (pos 2)
          ≡ some rb)
        × Rings.IsValid rb
        × (contents rb ≡ [])
        × (rb.channels ≡ 2)
  stereo_ring struct_ok samples_ok a b =
      let (rb, made, valid, empty, channels, low, high) =
        create_lem zero_f 61439 1 (omega arith) (omega arith) in
      (
        rb,
        ap₂ (λ s t. Ring.create zero_f s t (pos (64 * 960)) (pos 2)) a b ∙ made,
        valid,
        empty,
        channels,
      )

  encoder_made :
      (bitrate complexity : ℤ) (answers : Creation Encoder) (opus : Encoder)
      → Granted answers opus
      → (enc : OpusEncoder Encoder) × (encoder_create codec bitrate complexity
            answers.encoder_memory answers.opus_error answers.opus
          ≡ some enc)
  encoder_made bitrate complexity answers opus g =
      elim (encoder_create_lem codec bitrate complexity answers.encoder_memory answers.opus_error
        answers.opus) [
          | inl (o, ready, same, memory, good, made, configured) ↦
              (record { opus = some ready }, made)
          | inr (failed, why) ↦ absurd (elim why [
            | inl q ↦ cc (q, g.made)
            | inr (inl q) ↦ cc (q, g.encoder)
            | inr (inr q) ↦ q g.no_error
          ])
        ]

  -- What `assembled` puts around valid parts.
  assembled-Valid :
      (config : Config) (enc : OpusEncoder Encoder) (capture playback : RingBuf F)
      (mixing : Mixer F) (keys : Context) (net : Net)
      → Lookup.IsValid keys
      → Sockets.IsValid net nothing_held
      → Valid (assembled floats codec config enc capture playback mixing keys net) idle_world
  unfolding assembled
  assembled-Valid config enc capture playback mixing keys net k n = record {
    net = net;
    has_net = refl;
    net_valid = n;
    table_valid = record {
      room = length-replicate 64 (unused floats codec);
      counted = sym (count-unused 64);
      published = refl;
    };
    keys = keys;
    has_keys = refl;
    keys_valid = k;
    keyed = λ on. absurd (cc on);
    sends = λ on. on;
    joined = λ on. on;
    host_room = refl;
    host_ends = refl;
    name_room = refl;
    name_ends = refl;
  }

  assembled-Ready :
      (config : Config) (enc : OpusEncoder Encoder) (capture playback : RingBuf F)
      (mixing : Mixer F) (keys : Context) (net : Net)
      → Rings.IsValid capture
      → capture.channels ≡ 2
      → Rings.IsValid playback
      → playback.channels ≡ 2
      → Sampled.IsValid floats mixing
      → Ready floats codec (assembled floats codec config enc capture playback mixing keys net)
  unfolding assembled
  assembled-Ready config enc capture playback mixing keys net c cs p ps m = record {
    capture = record { rb = capture; has_ring = refl; ring_valid = c; stereo = cs };
    playback = record { rb = playback; has_ring = refl; ring_valid = p; stereo = ps };
    mixing = mixing;
    has_mixer = refl;
    mixer_valid = m;
    frame_room = length-replicate (960 * 2) zero_f;
    output_room = length-replicate (960 * 2) zero_f;
    encode_room = length-replicate {A = ℕ} 1400 0;
    recv_room = length-replicate {A = ℕ} 1400 0;
  }

  -- `ae_engine_create` with any configuration, or none, where every allocation succeeds and libopus gives
  -- an encoder: the engine is there, valid, with both rings, the mixer and the buffers at their sizes. It
  -- is not connected and in no channel.
  pub create_ready :
      (wanted : Option Config) (answers : Creation Encoder) (opus : Encoder)
      → Granted answers opus
      → (e : AeEngine codec) × (create floats codec wanted answers ≡ some e)
        × Valid e idle_world
        × Ready floats codec e
        × (e.connected ≡ false)
        × (e.channel.active ≡ false)
  unfolding create assembled
  create_ready wanted answers opus g =
      let config = config_from wanted in
      let (enc, enc_made) =
        encoder_made config.opus_bitrate config.opus_complexity answers opus g in
      let (capture, cap_made, cap_valid, cap_empty, cap_stereo) =
        stereo_ring answers.capture_struct answers.capture_samples g.capture_ok.0 g.capture_ok.1 in
      let (playback, play_made, play_valid, play_empty, play_stereo) =
        stereo_ring answers.playback_struct answers.playback_samples g.playback_ok.0
          g.playback_ok.1 in
      let (mixing, mix_made, mix_valid, level) = fresh_mixer floats (pos 64) in
      let (keys, keys_made, keys_valid) = Lookup.init_gives in
      let (net, net_made, net_valid) = create_gives in
      (
        assembled floats codec config enc capture playback mixing keys net,
        simp (
          create, enc_made, cap_made, play_made, g.mixer_ok, mix_made, g.crypto_ok, keys_made,
          g.network_ok, net_made, g.engine, ◌>>=◌,
        ),
        assembled-Valid config enc capture playback mixing keys net keys_valid net_valid,
        assembled-Ready config enc capture playback mixing keys net cap_valid cap_stereo play_valid
            play_stereo mix_valid,
        refl,
        refl,
      )
