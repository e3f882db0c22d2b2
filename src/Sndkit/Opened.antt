-- ===== src/Sndkit/Opened.antt =====
-- The device that `run` opens.
use test_tools.Common.{
  ℕ, ◌≡◌, refl, Bool, true, false, ◌&&◌, ◌||◌, not, Option, none, some, List, ◌==◌, if◌then◌else◌,
  length, take, ap, subst, Bool-cases, ◌⊎◌, inl, inr,
}
use test_tools.Common.Int.{ℤ, pos, negsuc}
use test_tools.Common.Bytes.{put_bytes}
use test_tools.Wav.{parse_wav_header, Out}
use test_tools.Sndkit.Files.{max_wav_head_size}
use test_tools.Sndkit.Io.{Sink, End, returned, waits, Status, finished, stopped, blocked}
use test_tools.Sndkit.Options.{Settings, c_string}
use test_tools.Sndkit.Program.{
  World, Done, ended, ended_behind, adopt, check_wav, config_device, write_head, run_threads,
  run_opened, run,
}

-- Either no device is opened or the one that the settings name.
abbrev pub Opens : List ℕ → Done → Type 0
Opens name d = (d.opened ≡ none) ⊎ (d.opened ≡ some name)

ended_behind-Opens : (s : Settings) (e : End) → Opens (c_string s.snd_dev) (ended_behind s e)
ended_behind-Opens s e = elim (Bool-cases (s.record_enable || s.replay_enable)) [
  | inl t ↦ inr (rw t refl)
  | inr t ↦ inl (rw t refl)
]

Opens-if :
    (b : Bool) (name : List ℕ) (x y : Done)
    → Opens name x
    → Opens name y
    → Opens name (if b then x else y)
Opens-if true name x y h k = h
Opens-if false name x y h k = k

run_threads-Opens :
    (w : World) (s : Settings) (data_len offset : ℕ) (file : Sink)
    → Opens (c_string s.snd_dev) (run_threads w s data_len offset file)
unfolding run_threads
run_threads-Opens w s data_len offset file =
    elim (Bool-cases (s.record_enable || s.replay_enable)) [
      | inl e ↦ inr (rw e refl)
      | inr e ↦ inl (rw e refl)
    ]

run_opened-Opens :
    (w : World) (s : Settings) (data_len offset : ℕ)
    → Opens (c_string s.snd_dev) (run_opened w s data_len offset)
unfolding run_opened
run_opened-Opens w s data_len offset =
    Opens-if (s.record_enable && not (w.opens (c_string s.record_file))) (c_string s.snd_dev)
      (ended_behind s (returned (negsuc 0))) (started (write_head w s).0 regular config)
      (ended_behind-Opens s (returned (negsuc 0))) (go (write_head w s).0 regular config)
  where
    threads : Done
    threads = run_threads w s data_len offset (write_head w s).1

    regular : Bool
    regular = (s.record_enable || s.replay_enable) && not (w.is_regular (c_string s.snd_dev))

    config : ℤ
    config = config_device w.driver s.format s.channels s.speed

    started : Status → Bool → ℤ → Done
    started status b c = elim status [
      | stopped ↦ ended_behind s (returned (negsuc 0))
      | blocked ↦ ended_behind s waits
      | finished ↦ elim b [
        | true ↦ elim c [ pos n ↦ threads | negsuc n ↦ ended_behind s (returned (negsuc 0)) ]
        | false ↦ record threads { configured = none }
      ]
    ]

    opens : Opens (c_string s.snd_dev) threads
    opens = run_threads-Opens w s data_len offset (write_head w s).1

    go : (status : Status) (b : Bool) (c : ℤ) → Opens (c_string s.snd_dev) (started status b c)
    go stopped b c = ended_behind-Opens s (returned (negsuc 0))
    go blocked b c = ended_behind-Opens s waits
    go finished true (pos n) = opens
    go finished true (negsuc n) = ended_behind-Opens s (returned (negsuc 0))
    go finished false c = opens

KeepsWav : Settings → Option (Settings × ℕ × ℕ) → Type 0
KeepsWav s none = Unit
KeepsWav s (some (s', data_len, offset)) = s'.snd_dev ≡ s.snd_dev

check_wav-KeepsWav : (w : World) (s : Settings) → KeepsWav s (check_wav w s)
unfolding check_wav adopt KeepsWav
check_wav-KeepsWav w s =
    let start = take max_wav_head_size w.first_read in
    let unset : Out = record { head_len = 0; channels = 0; sample_rate = 0; bits = 0 } in
    let r = parse_wav_header (put_bytes 0 start w.memory) unset in
    go (s.replay_enable && s.is_wav) (length start == max_wav_head_size) (r.0 == 0)
      (adopt r.1 s, r.0, r.1.head_len) refl
  where
    go :
        (used enough bad : Bool) (x : Settings × ℕ × ℕ)
        → x.0.snd_dev ≡ s.snd_dev
        → KeepsWav s (
            if used
            then if not enough then none else if bad then none else some x
            else some (s, 0, 0))
    go true true true x e = tt
    go true true false (s', n, k) e = e
    go true false bad x e = tt
    go false enough bad x e = refl

pub run-Opens : (w : World) (s : Settings) → Opens (c_string s.snd_dev) (run w s)
unfolding run KeepsWav
run-Opens w s =
    let used = s.record_enable || s.replay_enable in
    let sound = c_string s.replay_file in
    let name = c_string s.snd_dev in
    let tail = checked (check_wav w s) in
    let d4 =
      if s.replay_enable && (not (length sound == 0) && not (w.opens sound))
      then ended_behind s (returned (negsuc 0))
      else tail in
    let d3 = if used && not (w.opens name) then ended (returned (negsuc 0)) else d4 in
    let d2 = if not w.mixer_opens then ended (returned (pos 1)) else d3 in
    let d1 =
      if s.record_enable && (length (c_string s.record_file) == 0)
      then ended (returned (pos 127))
      else d2 in
    let e127 = ended (returned (pos 127)) in
    let early = ended_behind s (returned (negsuc 0)) in
    Opens-if (length name == 0) name e127 d1 (inl refl) (
      Opens-if (s.record_enable && (length (c_string s.record_file) == 0)) name e127 d2 (inl refl) (
        Opens-if (not w.mixer_opens) name (ended (returned (pos 1))) d3 (inl refl) (
          Opens-if (used && not (w.opens name)) name (ended (returned (negsuc 0))) d4 (inl refl) (
            Opens-if (s.replay_enable && (not (length sound == 0) && not (w.opens sound))) name
              early tail (ended_behind-Opens s (returned (negsuc 0)))
              (go (check_wav w s) (check_wav-KeepsWav w s))))))
  where
    checked : Option (Settings × ℕ × ℕ) → Done
    checked r = elim r [
      | none ↦ ended_behind s (returned (negsuc 0))
      | some (s', data_len, offset) ↦ run_opened w s' data_len offset
    ]

    go : (r : Option (Settings × ℕ × ℕ)) → KeepsWav s r → Opens (c_string s.snd_dev) (checked r)
    go none k = ended_behind-Opens s (returned (negsuc 0))
    go (some (s', data_len, offset)) k =
        subst (λ name. Opens name (run_opened w s' data_len offset)) (ap c_string k)
          (run_opened-Opens w s' data_len offset)
