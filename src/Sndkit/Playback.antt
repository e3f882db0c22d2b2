-- ===== src/Sndkit/Playback.antt =====
-- `main` plays a WAV file.
use test_tools.Common.{
  ℕ, ◌^◌, ◌<◌, ◌≤◌, ◌≡◌, refl, true, false, none, some, List, [], ◌∷◌, ◌++◌, map, arith, ==_of_ne,
  ==_refl, length, All, ◌∙◌, sym, subst, inr,
}
use test_tools.Common.Int.{pos}
use test_tools.Common.Bytes.{Mem}
use test_tools.Sndkit.Io.{Read, got, End, returned, waits, aborted, Sink}
use test_tools.Sndkit.Writing.{Willing}
use test_tools.Sndkit.Copying.{Copied}
use test_tools.Sndkit.RoundTrip.{head_of}
use test_tools.Sndkit.Play.{ReplayParams, play}
use test_tools.Sndkit.Playing.{Sound, sounds, total, play-Copied}
use test_tools.Sndkit.Options.{replay_on, replay_name, initial, default_snd_dev, c_string}
use test_tools.Sndkit.Device.{NoZero, nonzero-NoZero, c_string-append}
use test_tools.Sndkit.Program.{
  set_format, set_channels, set_speed, World, Done, check_wav, config_device, write_head,
  replay_params, join, run_threads, run_opened, run, main,
}
use test_tools.Sndkit.Adopting.{
  Format, to_play, playing, c_string-name, parse-to_play, check_wav-head,
}

-- The calls of `main` on the mixer, the device and the sound file come out well, and the driver takes
-- these values as they are.
pub record WillingWorld (w : World) (channels speed format : ℕ) : Type 0 where
  pub mixer : w.mixer_opens ≡ true
  pub opens : (name : List ℕ) → w.opens name ≡ true
  pub special : (name : List ℕ) → w.is_regular name ≡ false
  pub takes_format : w.driver set_format format ≡ some format
  pub takes_channels : w.driver set_channels channels ≡ some channels
  pub takes_speed : w.driver set_speed speed ≡ some speed
  pub room : w.room ≡ true
  pub starts : w.replay_starts ≡ true

-- `main` has set the device to these values, has played the blocks and has returned 0.
pub record PlayedBack (w : World) (channels speed format : ℕ) (p : ReplayParams)
    (blocks : List (List ℕ)) (d : Done) : Type 0 where
  pub status : d.status ≡ returned (pos 0)
  pub opened : d.opened ≡ some default_snd_dev
  pub configured : d.configured ≡ some (format, channels, speed)
  pub run : End × Sink
  pub played : d.played ≡ some run
  pub sound : Copied (sounds p blocks) w.device run
  pub recorded : d.recorded ≡ none

join-returned : (r : End × Sink) → r.0 ≡ returned (pos 0) → join (some r) none ≡ returned (pos 0)
unfolding join
join-returned (returned v, s) e = refl
join-returned (waits, s) e = absurd (ground arith)
join-returned (aborted, s) e = absurd (ground arith)

snd_dev-name : (garbage : List ℕ) → c_string (default_snd_dev ++ 0 ∷ garbage) ≡ default_snd_dev
snd_dev-name garbage = c_string-append default_snd_dev garbage (nonzero-NoZero default_snd_dev refl)

module _ (w : World) (garbage name : List ℕ) (channels speed format : ℕ)
    (ok : WillingWorld w channels speed format) where
  config_device-ok : config_device w.driver format channels speed ≡ pos 0
  unfolding config_device
  config_device-ok =
      let e0 = ok.takes_format in
      let e1 = ok.takes_channels in
      let e2 = ok.takes_speed in
      let f0 = ==_refl format in let f1 = ==_refl channels in let f2 = ==_refl speed in (cc)

  run_opened-playing :
      (data_len offset : ℕ)
      → run_opened w (playing garbage name channels speed format) data_len offset
        ≡ run_threads w (playing garbage name channels speed format) data_len offset w.file
  unfolding run_opened write_head initial
  run_opened-playing data_len offset =
      let e = ok.special (c_string (default_snd_dev ++ 0 ∷ garbage)) in
      rw (e, config_device-ok) refl

  run-playing :
      (data_len offset : ℕ)
      → NoZero name
      → 0 < length name
      → length name ≤ 127
      → check_wav w (to_play garbage name)
        ≡ some (playing garbage name channels speed format, data_len, offset)
      → run w (to_play garbage name)
        ≡ run_threads w (playing garbage name channels speed format) data_len offset w.file
  unfolding run initial
  run-playing data_len offset h l u e =
      let en = ==_of_ne (length name) 0 (omega arith) in
      rw
        (
          snd_dev-name garbage,
          ok.mixer,
          ok.opens default_snd_dev,
          c_string-name name h u,
          en,
          ok.opens name,
          e,
          run_opened-playing data_len offset,
        )
        refl

  main-playing :
      length name ≤ 127
      → main w garbage (replay_on ∷ replay_name name ∷ []) ≡ run w (to_play garbage name)
  unfolding main initial
  main-playing u = rw (main, parse-to_play garbage name u) refl

  run_threads-PlayedBack :
      (data_len offset : ℕ) (blocks : List (List ℕ)) (reads : List Read)
      → w.reads_from offset ≡ map got blocks ++ got [] ∷ reads
      → All (Sound (replay_params data_len (playing garbage name channels speed format))) blocks
      → total blocks ≤ data_len
      → data_len < 2 ^ 31
      → Willing
          (length
            (sounds (replay_params data_len (playing garbage name channels speed format)) blocks))
          w.device
      → PlayedBack w channels speed format
          (replay_params data_len (playing garbage name channels speed format))
          blocks
          (run_threads w (playing garbage name channels speed format) data_len offset w.file)
  unfolding run_threads initial join
  run_threads-PlayedBack data_len offset blocks reads er h t u wi =
      let p = replay_params data_len (playing garbage name channels speed format) in
      let x = play-Copied p blocks reads w.memory w.device h (inr (t, u)) wi in
      let es = ok.starts in
      let ep : play p w.room (w.reads_from offset) w.memory w.device
          ≡ play p true (map got blocks ++ got [] ∷ reads) w.memory w.device =
        rw (ok.room, er) refl in
      let r = play p true (map got blocks ++ got [] ∷ reads) w.memory w.device in
      record {
        status = rw (es, ep) (join-returned r x.result);
        opened = rw (snd_dev-name garbage) refl;
        configured = refl;
        run = r;
        played = rw (es, ep) refl;
        sound = x;
        recorded = refl;
      }

-- Let the file behind -p have the head that `makewav` writes for these channels, this speed and one of
-- the three formats, and then from 212 to less than 2^31 bytes of sound; let the calls of `main` on the
-- mixer, the device and the file come out well, the driver take the three values, and the reads from
-- offset 44 on give blocks of whole samples up to the end of the file, of the buffer's length at most,
-- no more than the head tells together; the name have from 1 to 127 bytes, none of them 0. Then
-- `main -P -p name` opens "/dev/snd/dsp", sets it to the format, the channels and the speed of the file,
-- writes the blocks to it (each sample of 24 bits with a zero behind) and returns 0.
pub main-PlayedBack :
    (w : World) (garbage name : List ℕ) (channels speed format : ℕ) (m : Mem) (raw : List ℕ)
    (blocks : List (List ℕ)) (reads : List Read)
    → WillingWorld w channels speed format
    → NoZero name
    → 0 < length name
    → length name ≤ 127
    → w.first_read ≡ head_of m (length raw) channels speed format ++ raw
    → 212 ≤ length raw
    → length raw < 2 ^ 31
    → channels < 2 ^ 16
    → speed < 2 ^ 32
    → Format format
    → w.reads_from 44 ≡ map got blocks ++ got [] ∷ reads
    → All (Sound (replay_params (length raw) (playing garbage name channels speed format))) blocks
    → total blocks ≤ length raw
    → Willing
        (length
          (sounds (replay_params (length raw) (playing garbage name channels speed format)) blocks))
        w.device
    → PlayedBack w channels speed format
        (replay_params (length raw) (playing garbage name channels speed format))
        blocks
        (main w garbage (replay_on ∷ replay_name name ∷ []))
main-PlayedBack w garbage name channels speed format m raw blocks reads ok nz ln un ef l u lc ls f
      er h t wi =
    let e = check_wav-head m raw channels speed format w garbage name ef l u lc ls f in
    let p = replay_params (length raw) (playing garbage name channels speed format) in
    subst (PlayedBack w channels speed format p blocks)
      (sym (
        main-playing w garbage name channels speed format ok un
        ∙ run-playing w garbage name channels speed format ok (length raw) 44 nz ln un e))
      (run_threads-PlayedBack w garbage name channels speed format ok (length raw) 44 blocks reads
        er h t u wi)
