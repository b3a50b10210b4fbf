-- ===== src/Command/Serve/Starts.antt =====
-- When `nameq serve` starts the service, and with what.
use nameq.Base.{
  ◌≡◌, refl, ap, sym, ◌∙◌, not, ◌&&◌, Bool, true, false, Option, none, some, arith, ◌↔◌,
}
use nameq.Base.Int.{ℤ}
use nameq.Base.Text.{Text, Bytes}
use nameq.Base.Result.{Result, ok, err}
use nameq.Log.{Log, LogError, default_init}
use nameq.Node.{PacketMode, LocalNode}
use nameq.Codec.{Codec, IsLawful}
use nameq.Packet.{packet_node}
use nameq.Packet.RoundTrip.{Delivered}
use nameq.Serve.Params.{Params, modes_of, fill_defaults, fill_defaults-Delivered}
use nameq.Command.Serve.{
  Flags, Sources, is_empty, is_negative, same, is_misused, read_file, params_of, Started,
  with_creds, with_secret, unless_misused, serve_command,
}
use nameq.Command.Serve.Given.{
  IsGiven, IsOptional, read_file-IsGiven, read_file-IsOptional, IsGiven-read_file,
  IsOptional-read_file, IsGiven-unique,
}

-- What the command demands before it starts the service with these parameters: one source of the
-- secret, one source of credentials at most, and an address, a region and a bucket.
pub record IsStarted (s : Sources) (f : Flags) (p : Params) : Type 0 where
  pub addr : is_empty f.params.addr ≡ false
  pub region : is_empty f.params.s3_region ≡ false
  pub bucket : is_empty f.params.s3_bucket ≡ false
  pub secret : Bytes
  pub creds : Option Bytes
  pub secret_given : IsGiven s f.secret_fd f.secret_file secret
  pub creds_given : IsOptional s f.s3_cred_fd f.s3_cred_file creds
  pub params : p ≡ params_of f (some secret) creds

module _ (sources : Sources) (serve_fails : Log → Params → Bool) (f : Flags) (log : Log)
    (p : Params) where
  abbrev Starts : Started → Type 0
  Starts r = r.1 ≡ some (log, p)

  with_creds-Starts :
      (l : Log) (secret : Option Bytes) (creds : Option (Option Bytes))
      → Starts (with_creds sources serve_fails f l secret creds)
      → (c : Option Bytes) × (creds ≡ some c) × (l ≡ log) × (p ≡ params_of f secret c)
  with_creds-Starts l secret none e = absurd (ground arith)
  with_creds-Starts l secret (some c) e = (c, refl, ground arith, ground arith)

  with_secret-Starts :
      (l : Log) (secret : Option (Option Bytes))
      → Starts (with_secret sources serve_fails f l secret)
      → (b c : Option Bytes) × (secret ≡ some b)
        × (read_file sources f.s3_cred_fd f.s3_cred_file ≡ some c)
        × (l ≡ log)
        × (p ≡ params_of f b c)
  with_secret-Starts l none e = absurd (ground arith)
  with_secret-Starts l (some b) e =
      let (c, h, j, k) = with_creds-Starts l b (read_file sources f.s3_cred_fd f.s3_cred_file) e in
      (b, c, refl, h, j, k)

  unless_misused-Starts :
      (misused : Bool) (logs : Result LogError Log)
      → Starts (unless_misused sources serve_fails misused f logs)
      → (misused ≡ false)
        × (logs ≡ ok log)
        × ((b c : Option Bytes) × (read_file sources f.secret_fd f.secret_file ≡ some b)
            × (read_file sources f.s3_cred_fd f.s3_cred_file ≡ some c)
            × (p ≡ params_of f b c))
  unless_misused-Starts true logs e = absurd (ground arith)
  unless_misused-Starts false (err _) e = absurd (ground arith)
  unless_misused-Starts false (ok l) e =
      let (b, c, h, i, j, k) =
        with_secret-Starts l (read_file sources f.secret_fd f.secret_file) e in
      (refl, ap ok j, (b, c, h, i, k))

misused_parts :
    (f : Flags)
    → is_misused f ≡ false
    → (is_empty f.params.addr ≡ false)
      × (same (is_empty f.secret_file) (is_negative f.secret_fd) ≡ false)
      × (not (is_empty f.s3_cred_file) && not (is_negative f.s3_cred_fd) ≡ false)
      × (is_empty f.params.s3_region ≡ false)
      × (is_empty f.params.s3_bucket ≡ false)
unfolding is_misused
misused_parts f h = (ground arith, ground arith, ground arith, ground arith, ground arith)

parts_misused :
    (f : Flags)
    → (is_empty f.params.addr ≡ false)
    → (same (is_empty f.secret_file) (is_negative f.secret_fd) ≡ false)
    → (not (is_empty f.s3_cred_file) && not (is_negative f.s3_cred_fd) ≡ false)
    → (is_empty f.params.s3_region ≡ false)
    → (is_empty f.params.s3_bucket ≡ false)
    → is_misused f ≡ false
unfolding is_misused
parts_misused f a b c d e = ground (arith, a, b, c, d, e)

module _ (sources : Sources) (serve_fails : Log → Params → Bool) (dial : Text → Text → Text → Bool)
    (prog : Text) (log log' : Log) (f : Flags) (p : Params) where
  abbrev logs : Result LogError Log
  logs = default_init dial f.syslog_net f.syslog_arg prog f.debug log

  start_IsStarted :
      (serve_command sources serve_fails dial prog log f).1 ≡ some (log', p)
      → (logs ≡ ok log') × IsStarted sources f p
  unfolding serve_command
  start_IsStarted e =
      let (h, l, (b, c, i, j, k)) =
        unless_misused-Starts sources serve_fails f log' p (is_misused f) logs e in
      let (addr, secret, creds, region, bucket) = misused_parts f h in
      let (data', q, g) = read_file-IsGiven sources f.secret_fd f.secret_file b secret i in
      (
        l,
        record {
          addr = addr;
          region = region;
          bucket = bucket;
          secret = data';
          creds = c;
          secret_given = g;
          creds_given = read_file-IsOptional sources f.s3_cred_fd f.s3_cred_file c creds j;
          params = k ∙ ap (λ (b : Option Bytes). params_of f b c) q;
        },
      )

  IsStarted-start :
      logs ≡ ok log'
      → IsStarted sources f p
      → (serve_command sources serve_fails dial prog log f).1 ≡ some (log', p)
  unfolding serve_command
  IsStarted-start l h =
      let (i, secret) =
        IsGiven-read_file sources f.secret_fd f.secret_file h.secret h.secret_given in
      let (j, creds) =
        IsOptional-read_file sources f.s3_cred_fd f.s3_cred_file h.creds h.creds_given in
      rw (parts_misused f h.addr secret creds h.region h.bucket, l, i, j, h.params) refl

-- `nameq serve` calls `Serve` with these parameters and loggers if and only if the loggers can be
-- set up, the address, the region and the bucket are not empty, one source of the secret is given
-- and can be read, at most one source of the credentials is given and can be read, and the
-- parameters are those of the flags with the secret and the credentials filled in.
pub serve_command-IsStarted :
    (sources : Sources) (serve_fails : Log → Params → Bool) (dial : Text → Text → Text → Bool)
    (prog : Text) (log log' : Log) (f : Flags) (p : Params)
    → ((serve_command sources serve_fails dial prog log f).1 ≡ some (log', p)) ↔ (
        (default_init dial f.syslog_net f.syslog_arg prog f.debug log ≡ ok log')
        × IsStarted sources f p)
serve_command-IsStarted sources serve_fails dial prog log log' f p = (
  start_IsStarted sources serve_fails dial prog log log' f p,
  λ h. IsStarted-start sources serve_fails dial prog log log' f p h.0 h.1,
)

abbrev zero_mode : Bytes → PacketMode
zero_mode secret = record { id = 0; secret = secret }

-- Two services that the command starts with flags of the same secret, and with the default receive
-- modes, understand each other: what the one sends, the other reads. The features of the sender can
-- be encoded, and its node has the send mode of its parameters.
pub serve_command-Delivered :
    (codec : Codec) (laws : IsLawful codec) (a b : Sources) (serve_fails : Log → Params → Bool)
    (dial : Text → Text → Text → Bool) (prog : Text) (log log_a log_b : Log) (f g : Flags)
    (p q : Params) (secret : Bytes) (local : LocalNode) (now : ℤ)
    → IsGiven a f.secret_fd f.secret_file secret
    → IsGiven b g.secret_fd g.secret_file secret
    → g.params.receive_modes ≡ none
    → (serve_command a serve_fails dial prog log f).1 ≡ some (log_a, p)
    → (serve_command b serve_fails dial prog log g).1 ≡ some (log_b, q)
    → local.mode ≡ p.send_mode
    → codec.is_encodable (packet_node local now) ≡ true
    → Delivered codec (modes_of (fill_defaults q).receive_modes) local now
serve_command-Delivered codec laws a b serve_fails dial prog log log_a log_b f g p q secret local
      now h k default e e' mode fits =
    let s = (start_IsStarted a serve_fails dial prog log log_a f p e).1 in
    let t = (start_IsStarted b serve_fails dial prog log log_b g q e').1 in
    let send_p =
      ap (λ (r : Params). r.send_mode) s.params
      ∙ ap zero_mode
          (IsGiven-unique a f.secret_fd f.secret_file s.secret secret s.secret_given h) in
    let send_q =
      ap (λ (r : Params). r.send_mode) t.params
      ∙ ap zero_mode
          (IsGiven-unique b g.secret_fd g.secret_file t.secret secret t.secret_given k) in
    let zero : local.mode.id ≡ 0 = ap (λ (m : PacketMode). m.id) (mode ∙ send_p) in
    fill_defaults-Delivered codec laws q local now
      (ap (λ (r : Params). r.receive_modes) t.params ∙ default) (mode ∙ send_p ∙ sym send_q)
      (omega (arith, zero)) fits
