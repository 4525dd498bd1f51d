-- ===== src/Lib.antt =====
-- audio_project: the core of a low-latency voice platform (core/src and core/include, in C).
--
-- A client's core captures frames of audio, encodes, encrypts and packs them into datagrams behind a
-- routing header, and unpacks, decrypts, decodes, buffers and mixes those of the others. The audio
-- callbacks of the platform and the processing thread meet in two ring buffers; each remote stream has
-- a jitter buffer and a sequence tracker.
--
-- Ring (core/src/ring_buffer.h, ring_buffer.c). `RingBuf` is `ae_ringbuf_t`; `create`, `available`,
--   `free_space`, `write`, `read` and `reset` are the `ae_ringbuf_` functions, `next_power_of_two` the
--   helper. Ring/PowerOfTwo has the sizing, Ring/Valid the invariant, Ring/Window the queue of frames
--   that a ring stands for, Ring/Create, Ring/Write and Ring/Read the operations. Ring/Spsc has the two
--   threads: `Step` interleaves `ae_ringbuf_write` and `ae_ringbuf_read` frame by frame; Effects is what
--   a step does to the ring, Invariant what holds of every state, Safety what follows.
-- Jitter (core/src/jitter_buffer.h, jitter_buffer.c). `Jitter` is `ae_jitter_t`; `push`, `pop`, `level`,
--   `needs_plc`, `underruns`, `create` and `reset` are the `ae_jitter_` functions, `push_frame` and
--   `pop_frame` their bodies for arguments that are not NULL, `skip` and `crossfade` the loops.
--   Jitter/Queue is the specification, Jitter/Refine relates the two, Jitter/Valid has the invariant,
--   Jitter/Slots the arithmetic of slots, Jitter/Wrap the case of deep buffers.
-- Rtp (core/src/rtp.h, rtp.c). `Header` is `ae_rtp_header_t`; `build_packet`, `parse_header`,
--   `build_keepalive`, `build_ping` and `get_payload` are the `ae_rtp_` functions. Rtp/Bytes has the
--   byte order helpers, Rtp/Layout the bytes of a header, Rtp/Packet and Rtp/Control the round trips,
--   Rtp/Overrun the bounds. Rtp/Sequence has `Tracker`, `init` and `update`.
-- Crypto (core/src/crypto.h, crypto.c, the part without HAVE_OPENSSL). Crypto/Table has `Context`, which
--   is `struct ae_crypto`, `find_key`, `derive_key` and `set_channel_key`; Crypto has `build_nonce`,
--   `xor_stream`, `compute_tag`, `encrypt` and `decrypt`. Crypto/Table/Lookup has the table as a map,
--   Crypto/Nonce, Crypto/Tag and Crypto/Stream the helpers, Crypto/Packet the layout of a packet,
--   Crypto/Exchange the round trips, Crypto/Tamper changed packets, Crypto/Guards the error paths. Only
--   one byte is changed in Tamper; the initialisation vector is not covered by the XOR backend's tag.
--   Crypto/Gcm is the part with HAVE_OPENSSL: `evp_encrypt` and `evp_decrypt` are its `ae_crypto_encrypt`
--   and `ae_crypto_decrypt`, with OpenSSL's calls as the parameter `Evp`. Crypto/Gcm/Laws has what OpenSSL
--   documents of them, Crypto/Gcm/Steps the calls one by one, Crypto/Gcm/Exchange the packets. The table
--   of keys, which both parts of the file repeat, is Crypto/Table.
-- Mixer (core/src/mixer.h, mixer.c). `Mixer` is `struct ae_mixer`; `create`, `mix`, `set_master_volume`
--   and `get_master_volume` are the `ae_mixer_` functions, `mix_inputs` the loop over the inputs.
--   Mixer/Loop has the loops over the samples, Mixer/Sum the loop over the inputs, Mixer/Sample the
--   output described sample by sample, Mixer/Volume the master volume and new mixers.
-- Streams (core/src/audio_engine.c, the table of remote streams). `Stream` is `remote_stream_t`, `Engine`
--   the fields of `struct ae_engine` that concern the table; `find_stream`, `create_stream` and
--   `destroy_stream` have the code's names, `destroy_all` is the loop of `ae_engine_leave_channel`.
--   Streams/Search has the searches, Streams/Count the table's count and its view as a map.
-- Voice (core/src/audio_engine.c, the steps of `ae_engine_process` on one voice packet). `send_voice`
--   goes from the encoded frame to the datagram, `open_payload` decrypts what a datagram carries; both
--   call the functions of Rtp and Crypto. Voice/Delivery has the packet between them, Voice/Bounds (on
--   Crypto/Bounds) has the buffers of the sender.
-- Network (core/src/network.h, network.c, the POSIX branch). `Net` is `ae_net_t`, `System` what the
--   operating system holds for it; `create`, `connect`, `disconnect`, `send`, `recv` and `destroy` are the
--   `ae_net_` functions. Network/Valid has the invariant, Network/Reach any sequence of calls,
--   Network/Outcome what they report, Network/Strings the copies into the handle's arrays.
-- Opus (core/src/opus_codec.h, opus_codec.c). `Codec` is libopus, a parameter; `encoder_create`,
--   `decoder_create`, `encode`, `decode` and `decode_plc` are the `ae_opus_` functions. Opus/Config has the
--   settings, Opus/Laws what the library's documentation promises.
-- Engine (core/include/audio_engine.h, core/src/audio_engine.c). `AeEngine` is `struct ae_engine`, `create`
--   is `ae_engine_create`. Engine/Session has the calls that connect, join, leave, transmit and set
--   volumes, with the invariant (Valid), the outcomes (Outcome, Join, Leave) and the control packets (Keepalive,
--   Total); Engine/Channel the number of a channel's name; Engine/AudioIo the audio callbacks;
--   Engine/Process the tick `ae_engine_process`, whose four steps are Engine/Capture, Engine/Receive,
--   Engine/Timers and Engine/MixTick, each with what it keeps (Kept) and Capture with its buffers
--   (Sending, Bounds); Engine/Stats the statistics;
--   Engine/Receive/Delivery follows a voice packet from one engine's encoder to the other's decoder;
--   Engine/Ready a new engine; Engine/Run any sequence of calls and ticks. Capture and Receive call Voice,
--   Opus, Network, Streams and Jitter; MixTick calls Jitter, Opus, Mixer and Ring.
-- Samples has the concrete numbers and the concrete codec of the runs.
-- Bits and Base are shared: the bit operations at variables; Boolean tests, lists as C arrays, `memcpy`
--   between arrays and the values of an `int`.
--
-- Representation. An `unsigned int` or `uint32_t` is a natural number with the remainder by 2 ^ 32
-- written where C wraps; an `int` that may be negative is a `ℤ`. Where the code adds to an `int` or
-- multiplies one without a bound on it, `to_int` wraps the result around. A pointer that may be NULL is an
-- `Option`. An access outside an array is an outer `none`, so that a theorem that gives a `some` also
-- says that the call stays in bounds. Allocation is a Boolean argument. Samples are of any type where
-- the code only copies them; where it computes with them the float operations are a parameter (Float).
-- Loops are structural recursion on the rounds that are left, so no fuel is used.
--
-- Answers of the system, of libopus, of `calloc` and of the clock are arguments of the calls. A tick
-- receives at most 20 datagrams (MAX_RECV_PER_TICK) and visits the 64 entries of the table.
--
-- Not modelled: the engine with the OpenSSL backend in place of the other; the Winsock branch of
-- network.c; freeing memory; and the clients and the server around the core.
pub mod Base
pub mod Bits
pub mod Ring
pub mod Float
pub mod Jitter
pub mod Rtp
pub mod Crypto
pub mod Mixer
pub mod Streams
pub mod Voice
pub mod Network
pub mod Opus
pub mod Engine
pub mod Samples
