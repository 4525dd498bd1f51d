-- ===== src/Engine/Receive/Kept.antt =====
-- What the receiving step of core/src/audio_engine.c keeps.
use mathlib.Core.Path.{subst}
use audio_project.Base.{
  ℕ, zero, suc, ◌+◌, ◌%◌, ◌^◌, List, Option, none, some, Bool, not, ◌||◌, ℤ, pos, negsuc, positive?,
  ◌==◌, ◌≡◌, refl, sym, inl, inr, bind-some, if-some, elim-some, Option-cases, get_elem?, set,
  ◌>>=◌,
}
use audio_project.Float.{Floats}
use audio_project.Opus.{Codec, OpusDecoder, decoder_create, decode}
use audio_project.Network.{recv}
use audio_project.Rtp.{Header, parse_header}
use audio_project.Streams.{Stream, Engine, find_stream}
use audio_project.Streams.Count as Table
use audio_project.Streams.Update.{updated-IsValid}
use audio_project.Voice.{open_payload}
use audio_project.Engine.{AeEngine, World}
use audio_project.Engine.Session.Valid.{Valid, moved, table-Valid}
use audio_project.Engine.Timers.Kept.{pong-Valid}
use audio_project.Engine.Capture.{given_back}
use audio_project.Engine.Receive.{
  Arrival, stream_for, deliver_to, deliver, audio_packet, dispatch, handle_datagram, receive_loop,
  receive_step,
}

module _ (floats : Floats) (codec : Codec floats.F) where
  open floats use {F}
  open codec use {Decoder}

  -- A packet stays on its stream.
  pub deliver_to_same :
      (s : Stream F (OpusDecoder Decoder)) (n : ℕ) (bytes : Option (List ℕ)) (frame : List F)
      (ms : ℕ)
      → ((deliver_to floats codec s n bytes frame ms).0.active ≡ s.active)
        × ((deliver_to floats codec s n bytes frame ms).0.client_id ≡ s.client_id)
  unfolding deliver_to
  deliver_to_same s n bytes frame ms =
      elim (Option-cases (positive? (decode codec s.decoder bytes (pos n) (some frame)).0)) [
        | inl q ↦ rw (deliver_to, q) (refl, refl)
        | inr (k, q) ↦ rw (deliver_to, q) (refl, refl)
      ]

  stream_for-IsValid :
      (table : Engine F (OpusDecoder Decoder)) (client : ℕ) (arrival : Arrival Decoder)
      → Table.IsValid table
      → Table.IsValid (stream_for floats codec table client arrival).1
  unfolding stream_for
  stream_for-IsValid table client arrival v = elim (Option-cases (find_stream table client)) [
    | inr (i, q) ↦ rw (stream_for, q) v
    | inl q ↦
        rw (stream_for, q)
          (Table.create_stream_refines floats table _ client arrival.created_ms
            (decoder_create arrival.decoder_memory arrival.opus_error arrival.opus)
            arrival.jitter_memory _ v refl).0
  ]

  deliver-Valid :
      (e : AeEngine codec) (i n : ℕ) (bytes : Option (List ℕ)) (ms : ℕ) (world : World)
      → Valid e world
      → Valid (deliver floats codec e i n bytes ms) world
  unfolding deliver
  deliver-Valid e i n bytes ms world v =
      let heard : Stream F (OpusDecoder Decoder) → AeEngine codec = λ s.
        let (s', frame) = deliver_to floats codec s n bytes e.decode_frame ms in
        record e {
          decode_frame = frame;
          table = record (e.table) { streams = set e.table.streams i s' };
        } in
      let after : Option (Stream F (OpusDecoder Decoder)) → AeEngine codec =
        λ o. elim o [ none ↦ e | some s ↦ heard s ] in
      elim (Option-cases (get_elem? e.table.streams i)) [
        | inl q ↦ subst (λ o. Valid (after o) world) (sym q) v
        | inr (s, q) ↦
            let s' = (deliver_to floats codec s n bytes e.decode_frame ms).0 in
            subst (λ o. Valid (after o) world) (sym q)
              (table-Valid e (record (e.table) { streams = set e.table.streams i s' }) world
                (updated-IsValid e.table i s s' q (deliver_to_same s n bytes e.decode_frame ms).0
                  v.table_valid)
                v)
      ]

  audio_packet-Valid :
      (e : AeEngine codec) (n : ℕ) (hdr : Header) (arrival : Arrival Decoder) (world : World)
      (e' : AeEngine codec)
      → Valid e world
      → audio_packet floats codec e n hdr arrival ≡ some e'
      → Valid e' world
  unfolding audio_packet
  audio_packet-Valid e n hdr arrival world e' v q =
      let (slot, table') = stream_for floats codec e.table hdr.client_id arrival in
      let known = record e { table = table' } in
      let valid : Valid known world =
        table-Valid e table' world (stream_for-IsValid e.table hdr.client_id arrival v.table_valid)
          v in
      elim (if-some (hdr.payload_length == 0 || not e.channel.active) _ _ e' q) [
        | inl (t, h) ↦ moved e e' world h v
        | inr (t, h) ↦ elim (elim-some slot _ _ e' h) [
          | inl (k, g) ↦ moved known e' world g valid
          | inr (i, k, g) ↦ elim (elim-some e.crypto _ _ e' g) [
            | inl (j, f) ↦ moved known e' world f valid
            | inr (keys, j, f) ↦
                let (found, opened, rest) =
                  bind-some (open_payload keys e.recv_buf (pos n) hdr arrival.decrypted)
                    (λ found. elim found [
                      | none ↦ some known
                      | some p ↦ some (deliver floats codec known i p.0 p.1 arrival.arrived_ms)
                    ])
                    e' f in
                elim (elim-some found _ _ e' rest) [
                  | inl (l, d) ↦ moved known e' world d valid
                  | inr (p, l, d) ↦
                      moved _ e' world d
                        (deliver-Valid known i p.0 p.1 arrival.arrived_ms world valid)
                ]
          ]
        ]
      ]

  dispatch-Valid :
      (e : AeEngine codec) (n : ℕ) (hdr : Header) (arrival : Arrival Decoder) (world : World)
      (e' : AeEngine codec)
      → Valid e world
      → dispatch floats codec e n hdr arrival ≡ some e'
      → Valid e' world
  unfolding dispatch
  dispatch-Valid e n hdr arrival world e' v q = elim (if-some (hdr.packet_type == 3) _ _ e' q) [
    | inl (t, h) ↦ moved _ e' world h (pong-Valid floats e arrival.pong_ms world v)
    | inr (t, h) ↦ elim (if-some (hdr.client_id == e.table.client_id) _ _ e' h) [
      | inl (k, g) ↦ moved e e' world g v
      | inr (k, g) ↦ elim (if-some (hdr.packet_type == 0) _ _ e' g) [
        | inl (j, f) ↦ audio_packet-Valid e n hdr arrival world e' v f
        | inr (j, f) ↦ moved e e' world f v
      ]
    ]
  ]

  handle_datagram-Valid :
      (e : AeEngine codec) (n : ℕ) (arrival : Arrival Decoder) (world : World) (e' : AeEngine codec)
      → Valid e world
      → handle_datagram floats codec e n arrival ≡ some e'
      → Valid e' world
  unfolding handle_datagram
  handle_datagram-Valid e n arrival world e' v q =
      let (p, read, rest) =
        bind-some (parse_header (some e.recv_buf) (pos n) (some arrival.header))
          (λ p. elim p.0 [
            | negsuc k ↦ some e
            | pos k ↦ elim p.1 [ none ↦ some e | some hdr ↦ dispatch floats codec e n hdr arrival ]
          ])
          e' q in
      parsed p.0 p.1 rest
    where
      parsed :
          (status : ℤ) (header : Option Header)
          → elim status [
            | negsuc k ↦ some e
            | pos k ↦ elim header [
              | none ↦ some e
              | some hdr ↦ dispatch floats codec e n hdr arrival
            ]
          ]
            ≡ some e'
          → Valid e' world
      parsed (negsuc k) header h = moved e e' world h v
      parsed (pos k) none h = moved e e' world h v
      parsed (pos k) (some hdr) h = dispatch-Valid e n hdr arrival world e' v h

  receive_loop-Valid :
      (left round : ℕ) (arrivals : ℕ → Arrival Decoder) (e : AeEngine codec) (world : World)
      (e' : AeEngine codec)
      → Valid e world
      → receive_loop floats codec left round arrivals e ≡ some e'
      → Valid e' world
  unfolding receive_loop
  receive_loop-Valid zero round arrivals e world e' v q = moved e e' world q v
  receive_loop-Valid (suc left) round arrivals e world e' v q =
      let next : Option (List ℕ) → AeEngine codec =
        λ buf. record e { recv_buf = given_back buf e.recv_buf } in
      let counted : Option (List ℕ) → AeEngine codec =
        λ buf. record (next buf) { packets_received = (e.packets_received + 1) % 2 ^ 64 } in
      let (p, got, rest) =
        bind-some (recv e.network (some e.recv_buf) (pos 1400) ((arrivals round).reply))
          (λ p. elim (positive? p.0) [
            | none ↦ some (next p.1)
            | some n ↦
                handle_datagram floats codec (counted p.1) n (arrivals round)
                >>= receive_loop floats codec left (round + 1) arrivals
          ])
          e' q in
      elim (elim-some (positive? p.0) _ _ e' rest) [
        | inl (t, h) ↦ moved (next p.1) e' world h v
        | inr (n, t, h) ↦
            let (handled, one, more) =
              bind-some (handle_datagram floats codec (counted p.1) n (arrivals round))
                (receive_loop floats codec left (round + 1) arrivals) e' h in
            receive_loop-Valid left (round + 1) arrivals handled world e'
              (handle_datagram-Valid (counted p.1) n (arrivals round) world handled v one) more
      ]

  pub receive_step-Valid :
      (e : AeEngine codec) (is_connected : Bool) (arrivals : ℕ → Arrival Decoder) (world : World)
      (e' : AeEngine codec)
      → Valid e world
      → receive_step floats codec e is_connected arrivals ≡ some e'
      → Valid e' world
  unfolding receive_step
  receive_step-Valid e is_connected arrivals world e' v q = elim (if-some is_connected _ _ e' q) [
    | inl (t, h) ↦ receive_loop-Valid 20 0 arrivals e world e' v h
    | inr (t, h) ↦ moved e e' world h v
  ]
