-- ===== src/Engine/Run.antt =====
-- Any sequence of the calls of core/src/audio_engine.c and of its processing ticks.
use audio_project.Base.{
  [], ℕ, List, Option, none, some, Bool, true, false, ℤ, ◌≡◌, sym, ap, ◌∙◌, Bool-cases, inl, inr,
  if◌then◌else◌,
}
use mathlib.Core.Option.{some-injective}
use mathlib.Core.Path.{subst₂}
use audio_project.Float.{Floats}
use audio_project.Engine.AudioIo.{write_capture, read_playback}
use audio_project.Engine.AudioIo.Kept.{write_capture-Valid, read_playback-Valid}
use audio_project.Opus.{Codec}
use audio_project.Network.{Answers}
use audio_project.Engine.{
  AeEngine, World, ErrorCode, Config, ae_ok, err_not_connected, Creation, create,
}
use audio_project.Engine.Session as Call
use audio_project.Engine.Session.{Greeting, fire, enter_channel, joined, leave_active}
use audio_project.Engine.Session.Valid.{
  table-Valid, switched-Valid, Valid, moved, leave_active-Valid, leave_channel_body-Valid,
}
use audio_project.Engine.Ready.{Granted, idle_world, create_ready}
use audio_project.Engine.Session.Join.{destroy_closes, disconnect-Valid, join_channel_reports}
use audio_project.Engine.Session.Outcome.{connect_reports}
use audio_project.Engine.Process.{Tick, process}
use audio_project.Engine.Process.Kept.{process-Valid}

module _ (floats : Floats) {codec : Codec floats.F} where
  open floats use {F}

  -- One call on an engine that is there.
  pub data Step (e : AeEngine codec) (world : World) : AeEngine codec → World → Type 0 where
    by_connect :
        {e' : AeEngine codec} {world' : World} (host : Option (List ℕ)) (udp_port : ℤ)
        (answers : Answers) (greeting : Greeting) (code : ErrorCode)
        → Call.connect (some e) host udp_port answers greeting world ≡ some (code, some e', world')
        → Step e world e' world'
    by_disconnect :
        {e' : AeEngine codec} {world' : World}
        → Call.disconnect (some e) world ≡ (some e', world')
        → Step e world e' world'
    by_join :
        {e' : AeEngine codec} (channel_id : Option (List ℕ)) (code : ErrorCode)
        → Call.join_channel floats (some e) channel_id ≡ some (code, some e')
        → Step e world e' world
    by_leave :
        {e' : AeEngine codec} (channel_id : Option (List ℕ)) (code : ErrorCode)
        → Call.leave_channel (some e) channel_id ≡ (code, some e')
        → Step e world e' world
    by_leave_all :
        {e' : AeEngine codec} → Call.leave_all_channels (some e) ≡ some e' → Step e world e' world
    by_start :
        {e' : AeEngine codec} (channel_id : Option (List ℕ)) (code : ErrorCode)
        → Call.start_transmit (some e) channel_id ≡ (code, some e')
        → Step e world e' world
    by_stop :
        {e' : AeEngine codec} (channel_id : Option (List ℕ)) (code : ErrorCode)
        → Call.stop_transmit (some e) channel_id ≡ (code, some e')
        → Step e world e' world
    by_channel_volume :
        {e' : AeEngine codec} (channel_id : Option (List ℕ)) (volume : F) (code : ErrorCode)
        → Call.set_channel_volume floats (some e) channel_id volume ≡ (code, some e')
        → Step e world e' world
    by_muted :
        {e' : AeEngine codec} (channel_id : Option (List ℕ)) (muted : Bool) (code : ErrorCode)
        → Call.set_channel_muted floats (some e) channel_id muted ≡ (code, some e')
        → Step e world e' world
    by_master_volume :
        {e' : AeEngine codec} (volume : F)
        → Call.set_master_volume floats (some e) volume ≡ some e'
        → Step e world e' world
    by_client_id :
        {e' : AeEngine codec} (client : ℕ)
        → Call.set_client_id (some e) client ≡ some e'
        → Step e world e' world
    by_capture_callback :
        {e' : AeEngine codec} (cb user_data : Option ℕ)
        → Call.set_capture_callback (some e) cb user_data ≡ some e'
        → Step e world e' world
    by_playback_callback :
        {e' : AeEngine codec} (cb user_data : Option ℕ)
        → Call.set_playback_callback (some e) cb user_data ≡ some e'
        → Step e world e' world
    by_event_callback :
        {e' : AeEngine codec} (cb user_data : Option ℕ)
        → Call.set_event_callback (some e) cb user_data ≡ some e'
        → Step e world e' world
    by_write_capture :
        {e' : AeEngine codec} (samples : Option (List F)) (frame_count : ℤ) (code : ErrorCode)
        → write_capture (some e) samples frame_count ≡ some (code, some e')
        → Step e world e' world
    by_read_playback :
        {e' : AeEngine codec} (samples out : Option (List F)) (frame_count : ℤ) (got : ℕ)
        → read_playback floats (some e) samples frame_count ≡ some (got, out, some e')
        → Step e world e' world
    by_process :
        {e' : AeEngine codec} {world' : World} (tick : Tick codec.Decoder)
        → process floats codec (some e) tick world ≡ some (some e', world')
        → Step e world e' world'

  pub data Reach (e : AeEngine codec) (world : World) : AeEngine codec → World → Type 0 where
    here : Reach e world e world
    later :
        {e' e'' : AeEngine codec} {world' world'' : World}
        → Reach e world e' world'
        → Step e' world' e'' world''
        → Reach e world e'' world''

  abbrev stopped : AeEngine codec → AeEngine codec
  stopped e = record e {
    channel = record (e.channel) { transmitting = false };
    transmitting = false;
  }

  abbrev started : AeEngine codec → AeEngine codec
  started e = record e { channel = record (e.channel) { transmitting = true }; transmitting = true }

  -- A call without a host is refused.
  no_host_Valid :
      {e' : AeEngine codec} {world' : World} (e : AeEngine codec) (udp_port : ℤ) (answers : Answers)
      (greeting : Greeting) (world : World) (code : ErrorCode)
      → Call.connect (some e) none udp_port answers greeting world ≡ some (code, some e', world')
      → Valid e world
      → Valid e' world'
  unfolding Call.connect
  no_host_Valid e udp_port answers greeting world code q v =
      subst₂ Valid (some-injective _ _ (ap (λ r. r.1) (some-injective _ _ q)))
        (ap (λ r. r.2) (some-injective _ _ q)) v

  Step-Valid :
      {e e' : AeEngine codec} {world world' : World}
      → Step e world e' world'
      → Valid e world
      → Valid e' world'
  unfolding Call.join_channel Call.leave_channel Call.leave_all_channels Call.start_transmit
      Call.stop_transmit Call.set_channel_volume Call.set_channel_muted Call.set_master_volume
      Call.set_client_id Call.set_event_callback Call.set_capture_callback
      Call.set_playback_callback
  Step-Valid {world = w} (by_connect none udp_port answers greeting code q) v =
      no_host_Valid _ udp_port answers greeting w code q v
  Step-Valid {world = w} (by_connect (some host) udp_port answers greeting code q) v =
      (connect_reports _ host udp_port answers greeting _ code _ _ v q).0
  Step-Valid {world = w} (by_disconnect q) v = disconnect-Valid floats _ _ _ _ v q
  Step-Valid {world = w} (by_join none code q) v =
      moved _ _ w (ap (λ r. r.1) (some-injective _ _ q)) v
  Step-Valid {world = w} (by_join (some channel_id) code q) v =
      (join_channel_reports floats _ _ channel_id w code v q).0
  Step-Valid {world = w} (by_leave none code q) v = moved _ _ w (ap (λ r. r.1) q) v
  Step-Valid {world = w} (by_leave (some channel_id) code q) v =
      moved _ _ w (ap (λ r. r.1) q) (leave_channel_body-Valid _ w v)
  Step-Valid {world = w} (by_leave_all q) v = moved _ _ w q (leave_active-Valid _ w v).0
  Step-Valid {world = w} (by_start none code q) v = moved _ _ w (ap (λ r. r.1) q) v
  Step-Valid {e = e} {world = w} (by_start (some channel_id) code q) v =
      let refused : ErrorCode × Option (AeEngine codec) = (err_not_connected, some e) in
      let accepted : ErrorCode × Option (AeEngine codec) = (ae_ok, some (started e)) in
      elim (Bool-cases e.channel.active) [
        | inl active ↦
            let same = sym (ap (λ b. if b then accepted else refused) active) ∙ q in
            moved (started e) _ w (ap (λ r. r.1) same) (switched-Valid e true w (λ on. active) v)
        | inr left ↦
            let same = sym (ap (λ b. if b then accepted else refused) left) ∙ q in
            moved e _ w (ap (λ r. r.1) same) v
      ]
  Step-Valid {world = w} (by_stop none code q) v = moved _ _ w (ap (λ r. r.1) q) v
  Step-Valid {e = e} {world = w} (by_stop (some channel_id) code q) v =
      moved (stopped e) _ w (ap (λ r. r.1) q) (switched-Valid e false w (λ on. absurd (cc on)) v)
  Step-Valid {world = w} (by_channel_volume none volume code q) v = moved _ _ w (ap (λ r. r.1) q) v
  Step-Valid {world = w} (by_channel_volume (some channel_id) volume code q) v =
      moved _ _ w (ap (λ r. r.1) q) v
  Step-Valid {world = w} (by_muted none muted code q) v = moved _ _ w (ap (λ r. r.1) q) v
  Step-Valid {world = w} (by_muted (some channel_id) muted code q) v =
      moved _ _ w (ap (λ r. r.1) q) v
  Step-Valid {world = w} (by_master_volume volume q) v = moved _ _ w q v
  Step-Valid {e = e} {world = w} (by_client_id client q) v =
      moved (record e { table = record (e.table) { client_id = client } }) _ w q
        (table-Valid e (record (e.table) { client_id = client }) w
          (record {
            room = v.table_valid.room;
            counted = v.table_valid.counted;
            published = v.table_valid.published;
          })
          v)
  Step-Valid {world = w} (by_capture_callback cb user_data q) v = moved _ _ w q v
  Step-Valid {world = w} (by_playback_callback cb user_data q) v = moved _ _ w q v
  Step-Valid {world = w} (by_event_callback cb user_data q) v = moved _ _ w q v
  Step-Valid {e = e} {world = w} (by_write_capture samples frame_count code q) v =
      write_capture-Valid e samples frame_count w code _ q v
  Step-Valid {e = e} {world = w} (by_read_playback samples out frame_count got q) v =
      read_playback-Valid floats e samples out frame_count w got _ q v
  Step-Valid {e = e} {world = w} (by_process tick q) v = process-Valid floats codec e tick w _ _ v q

  -- Whatever calls, audio transfers and ticks are made on a valid engine, in whatever order, with any
  -- arguments, NULL included, and any answers of the system, as long as each of them stays within the
  -- buffers: the engine stays valid. So no socket leaks through it, it transmits only in a channel and is
  -- in a channel only while it counts as connected, the streams and keys are as their tables say, and the
  -- channel it is in has a key unless the table of keys is full.
  pub Reach-Valid :
      (e : AeEngine codec) (world : World) (e' : AeEngine codec) (world' : World)
      → Reach e world e' world'
      → Valid e world
      → Valid e' world'
  Reach-Valid e world e' world' here v = v
  Reach-Valid e world e' world' (later before step) v =
      Step-Valid step (Reach-Valid _ _ _ _ before v)

  -- An engine that was made, used by any calls, audio transfers and ticks that stay within the buffers,
  -- and then destroyed leaves no socket open.
  pub no_socket_left :
      (wanted : Option Config) (answers : Creation codec.Encoder) (opus : codec.Encoder)
      (e e' : AeEngine codec) (world' : World)
      → Granted answers opus
      → create floats codec wanted answers ≡ some e
      → Reach e idle_world e' world'
      → (Call.destroy (some e') world').system.open_sockets ≡ []
  no_socket_left wanted answers opus e e' world' granted made r =
      let (new, gives, valid, ready, off, idle) =
        create_ready floats codec wanted answers opus granted in
      destroy_closes floats e' world'
        (Reach-Valid e idle_world e' world' r (moved new e idle_world (sym gives ∙ made) valid))
