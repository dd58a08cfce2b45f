-- ===== src/Enroll/Tests.antt =====
-- The theorems on enrollment at a small system and a server that answers it.
use releasepanel_agent.Base.{◌≡◌, ◌≢◌, ◌⊎◌, refl, ℕ, zero, suc, false, none, some, [], ◌∷◌, ◌++◌}
use releasepanel_agent.Text.{
  Text, codes, text_eq, ne_of_test, trim_space, trim_left, trim_right, is_space, byte_length,
  rune_length, byte_prefix, Unicode, has_prefix,
}
use releasepanel_agent.FilePath.{dir, join, clean, is_abs, join_names, names, resolve, split, visit}
use releasepanel_agent.System.{
  Os, Sys, ok, err, go, stop, missing, deferred, leave, result, continue, check, pure, ◌>>=◌,
}
use releasepanel_agent.Config.Settings.{Config}
use releasepanel_agent.Config.Origin.{Url, validate_http_origin}
use releasepanel_agent.Api.{NodeFacts, EnrollResponse}
use releasepanel_agent.Central.{
  Http, Json, new, enroll, value_of, exchange, status_error, read_limited,
}
use releasepanel_agent.Central.Ping.{no_intents}
use releasepanel_agent.State.{EnrollmentRecord, enrollment, ensure_tree, write_json_atomic}
use releasepanel_agent.System.Files.{touch, make_temp}
use releasepanel_agent.System.Atomic.{
  replace_file, got, fill_and_rename, write_encoded, close_and_check,
}
use releasepanel_agent.Enroll.{Machine, Codec, on_sys, run, read_record}
use releasepanel_agent.Enroll.Persisted.{IsEnrolled, IsKept, run-IsEnrolled}
use releasepanel_agent.Enroll.ReadBack.{read_record-run}

instance ascii : Unicode
ascii = record { lower = λ c. c; quote = λ s. codes "\"" ++ (s ++ codes "\"") }

abbrev origin : Url
origin = record {
  scheme = codes "https";
  host = codes "a.example";
  path = [];
  raw_query = [];
  fragment = [];
}

abbrev http : Http
http = record {
  respond = λ w req. ok (record { status = 201; body = codes "{}"; broken = none });
  bad_request = λ method url. none;
  resolve = λ u path. codes "https://a.example" ++ path;
  redacted = λ u path. codes "https://a.example" ++ path;
  path_escape = λ s. s;
}

abbrev granted : EnrollResponse
granted = record { schema_version = 1; node_id = codes "n1"; api_key = codes "k1" }

abbrev json : Json
json = record {
  enroll_request = λ r. ok (codes "{}");
  enroll_response = λ t. ok granted;
  inventory = λ r. ok (codes "{}");
  health = λ r. ok (codes "{}");
  heartbeat = λ r. ok (codes "{}");
  convergence = λ r. ok (codes "{}");
  ping_body = λ r. ok (codes "{}");
  ping_response = λ t. ok no_intents;
  fingerprint = λ t. none;
}

abbrev os : Os
os = record {
  look_path = λ s name. err (codes "not found");
  exec = λ s c. (record { stdout = []; stderr = []; error = none }, s.disk);
  stat = λ s p. missing (codes "no such file or directory");
  eval_symlinks = λ s p. ok p;
  open_file = λ s p. none;
  post = λ s row. none;
  now = λ s. codes "2026-01-01T00:00:00Z";
  environ = [];
  fault = λ s c. none;
  temp_name = λ s dir pattern. codes "/tmp/.rp-1";
  partial = λ s. 0;
}

-- An encoding that is read back: each text ends with a zero.
abbrev put : Text → Text → Text
put [] rest = 0 ∷ rest
put (c ∷ s) rest = suc c ∷ put s rest

abbrev with_head : ℕ → Text × Text → Text × Text
with_head c (s, rest) = (c ∷ s, rest)

abbrev take_text : Text → Text × Text
take_text [] = ([], [])
take_text (zero ∷ rest) = ([], rest)
take_text (suc c ∷ rest) = with_head c (take_text rest)

take_text-put : (s rest : Text) → take_text (put s rest) ≡ (s, rest)
take_text-put [] rest = refl
take_text-put (c ∷ s) rest = rw (take_text-put s rest) refl

abbrev encode : EnrollmentRecord → Text
encode r =
    put r.node_id
      (put r.api_key (put r.central_base_url (put r.enrolled_at (r.schema_version ∷ []))))

abbrev first : Text → ℕ
first [] = 0
first (c ∷ s) = c

abbrev decode : Text → EnrollmentRecord
decode t =
    let (node, a) = take_text t in
    let (key, b) = take_text a in
    let (url, c) = take_text b in
    let (at, d) = take_text c in
    record {
      schema_version = first d;
      node_id = node;
      api_key = key;
      central_base_url = url;
      enrolled_at = at;
    }

decode-encode : (r : EnrollmentRecord) → decode (encode r) ≡ r
decode-encode r =
    rw
      (
        take_text-put r.node_id
            (put r.api_key (put r.central_base_url (put r.enrolled_at (r.schema_version ∷ [])))),
        take_text-put r.api_key
            (put r.central_base_url (put r.enrolled_at (r.schema_version ∷ []))),
        take_text-put r.central_base_url (put r.enrolled_at (r.schema_version ∷ [])),
        take_text-put r.enrolled_at (r.schema_version ∷ []),
      )
      refl

abbrev codec : Codec
codec = record {
  parse_url = λ t. ok origin;
  encode = λ r. ok (encode r);
  decode = λ t. ok (decode t);
}

abbrev config : Config
config = record {
  central_base_url = codes "https://a.example";
  poll_interval_seconds = 60;
  state_dir = codes "/var/lib/rp";
  log_dir = codes "/var/log/rp";
  skip_tls_verify = false;
  manifest_reconcile_enabled = false;
  agent_ping_token_file = [];
  runtime_deploy_path_roots = [];
  github_ssh_known_hosts_file = [];
  nginx_sites_available_root = [];
  nginx_sites_enabled_root = [];
  nginx_test_argv = [];
  nginx_reload_argv = [];
  nginx_php_fastcgi_pass = [];
  tls_certificate_path_roots = [];
  runtime_dependency_probes = [];
  probe_specs = [];
}

abbrev facts : NodeFacts
facts = record {
  hostname = codes "h";
  os = codes "linux";
  arch = codes "amd64";
  machine_id = [];
  agent_version = codes "0.1";
}

abbrev start : Machine
start = record { sys = record { disk = λ p. none; log = []; ticks = 0 }; wire = [] }

-- The temporary file has another name.
apart :
    (s : Sys)
    → enrollment (codes "/var/lib/rp")
      ≢ os.temp_name s (dir (enrollment (codes "/var/lib/rp"))) (codes ".rp-*")
unfolding text_eq enrollment join clean is_abs has_prefix join_names names resolve split visit
apart s = ne_of_test (enrollment (codes "/var/lib/rp")) (codes "/tmp/.rp-1") refl

run-IsEnrolled_example :
    let x =
      run os http json codec config (codes "https://a.example/") (codes "token") facts start in
    ((x.0 ≡ go tt)
      × IsEnrolled os http json codec config
          (codes "https://a.example/")
          (codes "token")
          facts
          apart
          start
          x.1)
    ⊎ ((e : Text) × (x.0 ≡ stop (some e)) × IsKept os codec config.state_dir apart start x.1)
run-IsEnrolled_example =
    run-IsEnrolled os http json codec config (codes "https://a.example/") (codes "token") facts
      start apart

enrolls :
    (run os http json codec config (codes "https://a.example/") (codes "token") facts start).0
    ≡ go tt
unfolding run ◌>>=◌ new validate_http_origin text_eq trim_right trim_left pure enroll value_of check
    exchange status_error read_limited byte_prefix rune_length trim_space byte_length is_space
    ensure_tree touch make_temp replace_file got fill_and_rename write_encoded close_and_check
    deferred leave result on_sys continue write_json_atomic
enrolls = refl

read_record-run_example :
    (rec : EnrollmentRecord) × ((read_record os codec config.state_dir
        (run os http json codec config
          (codes "https://a.example/")
          (codes "token")
          facts
          start).1.sys).0
      ≡ go rec)
    × (trim_space rec.node_id ≢ [])
    × (trim_space rec.api_key ≢ [])
read_record-run_example =
    read_record-run os http json codec config (codes "https://a.example/") (codes "token") facts
      start apart (λ rec. (encode rec, refl, rw (decode-encode rec) refl)) (λ s. refl) enrolls
