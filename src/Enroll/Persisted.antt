-- ===== src/Enroll/Persisted.antt =====
-- What an enrollment leaves on the disk, and that it is read back.
use releasepanel_agent.Enroll.Triples.{
  ensure_tree-disk, on_sys-Ensures, on_wire-Ensures, or_leave-Ensures, answer_of_lem, check-Ensures,
}
use releasepanel_agent.Base.{
  ◌≡◌, ◌≢◌, ◌≤◌, ◌<◌, ◌==◌, ◌⊎◌, inl, inr, refl, arith, ◌∙◌, sym, ap, false, Option, none, some, [],
  ◌∷◌,
}
use releasepanel_agent.Text.{Text, codes, trim_space, trim_left, trim_right, Unicode}
use releasepanel_agent.FilePath.{dir}
use releasepanel_agent.System.{Os, Sys, M, Disk, ok, go, stop, pure, check}
use releasepanel_agent.System.Ensures.{
  Ensures, Ensures-bind, Ensures-pure, Ensures-leave, Ensures-fact, Ensures-weaken, Ensures-either,
  Ensures-go,
}
use releasepanel_agent.System.Atomic.{replace_file}
use releasepanel_agent.System.Atomic.Replaces.{wanted}
use releasepanel_agent.System.Atomic.Settles.{Settles, replace_file-Settles}
use releasepanel_agent.Config.Settings.{Config}
use releasepanel_agent.Api.{NodeFacts, EnrollRequest, EnrollResponse, schema_v1}
use releasepanel_agent.Central.{
  Http, Json, Request, Response, Client, enroll, post_request, no_response, decode_into,
  read_limited,
}
use releasepanel_agent.Central.Sends.{post_json-Ensures}
use releasepanel_agent.State.{EnrollmentRecord, enrollment, ensure_tree, write_json_atomic}
use releasepanel_agent.Enroll.{
  Machine, wrapped, missing_credentials, record_of, Codec, clock, persist, run,
}

-- The file of an enrollment, and the call that writes it.
module _ (os : Os) (codec : Codec) (state_dir : Text)
    (apart : (s : Sys)
      → enrollment state_dir ≢ os.temp_name s (dir (enrollment state_dir)) (codes ".rp-*"))
    (w : Machine) where
  -- No file but one temporary file has changed.
  abbrev pub IsKept : Machine → Type 0
  IsKept v =
      (tmp : Text) × (enrollment state_dir ≢ tmp)
      × ((q : Text) → q ≢ tmp → v.sys.disk q ≡ w.sys.disk q)

  abbrev IsWritten : EnrollmentRecord → Machine → Type 0
  IsWritten rec v =
      (v.sys.disk (enrollment state_dir) ≡ wanted (codec.encode rec) 0o600)
      × ((tmp : Text) × ((q : Text)
            → q ≢ enrollment state_dir
            → q ≢ tmp
            → v.sys.disk q ≡ w.sys.disk q))

  abbrev IsRejected : Option Text → Machine → Type 0
  IsRejected e v = ((t : Text) × (e ≡ some t)) × IsKept v

  same_IsKept : (v : Machine) → v.sys.disk ≡ w.sys.disk → IsKept v
  same_IsKept v h =
      (os.temp_name v.sys (dir (enrollment state_dir)) (codes ".rp-*"), apart v.sys, λ q n. cc)

  saved_lem :
      (rec : EnrollmentRecord) (s : Sys) (e : Option Text) (v : Machine)
      → s.disk ≡ w.sys.disk
      → Settles os
          (codes ".rp-*")
          (enrollment state_dir)
          apart
          0o600
          (codec.encode rec)
          s.disk
          e
          v.sys.disk
      → ((e ≡ none) × IsWritten rec v) ⊎ (((t : Text) × (e ≡ some t)) × IsKept v)
  saved_lem rec s none v h (tmp, n, r) =
      inl (refl, (r.0, (tmp, λ q a b. r.2 q a b ∙ ap (λ (d : Disk). d q) h)))
  saved_lem rec s (some t) v h (tmp, n, r) =
      inr ((t, refl), (tmp, n, λ q a. r q a ∙ ap (λ (d : Disk). d q) h))

  checked-Ensures :
      (rec : EnrollmentRecord) (v x : Machine) (e : Option Text)
      → (((e ≡ none) × IsWritten rec x) ⊎ (((t : Text) × (e ≡ some t)) × IsKept x))
      → x.wire ≡ v.wire
      → Ensures
          (λ y. y ≡ x)
          (check (wrapped (codes "persist enrollment: ") e))
          (λ _ y. IsWritten rec y × (y.wire ≡ v.wire))
          IsRejected
  unfolding wrapped check pure
  checked-Ensures rec v x none (inl a) q = Ensures-pure tt (λ y p. (rw p a.1, rw p q))
  checked-Ensures rec v x none (inr b) q = absurd (ground (arith, b.0.1))
  checked-Ensures rec v x (some t) (inl a) q = absurd (ground (arith, a.0))
  checked-Ensures rec v x (some t) (inr b) q = Ensures-leave _ _ (λ y p. ((_, refl), rw p b.1))

  persist-Ensures :
      (rec : EnrollmentRecord) (v : Machine)
      → v.sys.disk ≡ w.sys.disk
      → Ensures
          (λ x. x ≡ v)
          (persist os codec state_dir rec)
          (λ _ x. IsWritten rec x × (x.wire ≡ v.wire))
          IsRejected
  unfolding persist write_json_atomic
  persist-Ensures rec v h =
      Ensures-bind (on_sys-Ensures (ensure_tree os (state_dir ∷ [])) v) λ made.
        Ensures-bind (check-Ensures made (λ t q x p. ((t, refl), same_IsKept x (rw p.0 tree_kept))))
          λ _. Ensures-fact λ _. Ensures-fact λ _. Ensures-bind (on_sys-Ensures write tree) λ saved.
            Ensures-fact λ e.
              checked-Ensures rec v (record tree { sys = (write tree.sys).1 }) saved
                (rw e (
                  saved_lem rec tree.sys _ (record tree { sys = (write tree.sys).1 }) tree_kept
                    (replace_file-Settles os (codes ".rp-*") (enrollment state_dir) apart 0o600
                      (codec.encode rec) tree.sys)))
                refl
    where
      write : M (Unit {0})
      write = replace_file os (codes ".rp-*") 0o600 (enrollment state_dir) (codec.encode rec)

      tree : Machine
      tree = record v { sys = (ensure_tree os (state_dir ∷ []) v.sys).1 }

      tree_kept : tree.sys.disk ≡ w.sys.disk
      tree_kept = ensure_tree-disk os w.sys.disk (state_dir ∷ []) v.sys h

missing_credentials_lem :
    (resp : EnrollResponse)
    → missing_credentials resp ≡ none
    → (trim_space resp.node_id ≢ []) × (trim_space resp.api_key ≢ [])
unfolding missing_credentials
missing_credentials_lem resp h = (λ e. ground arith, λ e. ground arith)

clock-Ensures :
    (os : Os) (codec : Codec) (w : Machine) {R : Option Text → Machine → Type 0}
    → Ensures (λ v. v ≡ w) (clock os codec) (λ _ v. v ≡ w) R
unfolding clock
clock-Ensures os codec w = record { at = λ v q. q }

module _ ⦃u : Unicode⦄ (os : Os) (http : Http) (json : Json) (codec : Codec) (cfg : Config)
    (base token : Text) (facts : NodeFacts)
    (apart : (s : Sys)
      → enrollment cfg.state_dir ≢ os.temp_name s (dir (enrollment cfg.state_dir)) (codes ".rp-*"))
    (w : Machine) where
  -- Central has answered with these credentials, and they are in the file with mode 0600.
  pub record IsEnrolled (v : Machine) : Type 0 where
    pub request : Request
    pub response : Response
    pub buf : Text
    pub asked :
        (json.enroll_request
            (record { schema_version = schema_v1; token = token; node_facts = facts })
          ≡ ok buf)
        × (request.body ≡ some buf)
    pub exchanged : v.wire ≡ record { request = request; response = ok response } ∷ w.wire
    pub accepted : (200 ≤ response.status) × (response.status < 300)
    pub resp : EnrollResponse
    pub decoded : json.enroll_response (read_limited response) ≡ ok resp
    pub node_given : trim_space resp.node_id ≢ []
    pub key_given : trim_space resp.api_key ≢ []
    pub stored : EnrollmentRecord
    pub stored_node : stored.node_id ≡ resp.node_id
    pub stored_key : stored.api_key ≡ resp.api_key
    pub stored_base : stored.central_base_url ≡ trim_right (λ c. c == b'/') base
    pub written : IsWritten os codec cfg.state_dir apart w stored v

  abbrev enroll_request : EnrollRequest
  enroll_request = record { schema_version = schema_v1; token = token; node_facts = facts }

  abbrev Rejected : Option Text → Machine → Type 0
  Rejected = IsRejected os codec cfg.state_dir apart w

  unchanged : (t : Text) (v : Machine) → v.sys.disk ≡ w.sys.disk → Rejected (some t) v
  unchanged t v h = ((t, refl), same_IsKept os codec cfg.state_dir apart w v h)

  decoded_lem :
      (raw : Text) (resp : EnrollResponse)
      → decode_into (some json.enroll_response) no_response raw ≡ ok resp
      → trim_space resp.node_id ≢ []
      → json.enroll_response raw ≡ ok resp
  unfolding decode_into trim_space trim_left trim_right
  decoded_lem [] resp h n = ground arith
  decoded_lem (c ∷ raw) resp h n = h

  enrolled_exchange :
      (cl : Client) (resp : EnrollResponse)
      → trim_space resp.node_id ≢ []
      → (enroll http json cl enroll_request w.wire).0 ≡ go resp
      → (q : Request) × (r : Response) × (buf : Text) × ((json.enroll_request enroll_request
            ≡ ok buf)
          × (q.body ≡ some buf))
        × ((enroll http json cl enroll_request w.wire).1
            ≡ record { request = q; response = ok r } ∷ w.wire)
        × (200 ≤ r.status)
        × (r.status < 300)
        × (json.enroll_response (read_limited r) ≡ ok resp)
  unfolding enroll post_request
  enrolled_exchange cl resp n h =
      let d =
        Ensures-go
          (post_json-Ensures http cl (codes "/api/v1/nodes/enroll")
            (json.enroll_request enroll_request) (some json.enroll_response) no_response false
            w.wire json)
          w.wire resp refl h in
      (
        _,
        d.response,
        d.buf,
        (d.encoded, refl),
        d.exchanged,
        d.accepted.0,
        d.accepted.1,
        decoded_lem _ resp d.decoded n,
      )

  pub run-Ensures :
      Ensures
        (λ v. v ≡ w)
        (run os http json codec cfg base token facts)
        (λ _ v. IsEnrolled v)
        Rejected
  unfolding run record_of
  run-Ensures =
      Ensures-bind (or_leave-Ensures (λ e. e) _ (λ e q v p. unchanged _ v (rw p refl))) λ cl.
        Ensures-fact λ _.
          Ensures-bind (on_wire-Ensures (enroll http json cl enroll_request) w) λ answer.
            Ensures-fact λ asked.
              Ensures-bind (or_leave-Ensures _ answer (λ e q v p. unchanged _ v (rw p refl)))
                λ resp. Ensures-fact λ answered.
                  Ensures-bind
                    (check-Ensures (missing_credentials resp)
                      (λ e q v p. unchanged _ v (rw p refl)))
                    λ _. Ensures-fact λ given.
                      Ensures-bind
                        (clock-Ensures os codec
                          (record w { wire = (enroll http json cl enroll_request w.wire).1 }))
                        λ at.
                          Ensures-weaken
                            (persist-Ensures os codec cfg.state_dir apart w (record_of base resp at)
                              (record w { wire = (enroll http json cl enroll_request w.wire).1 })
                              refl)
                            (λ _ v p.
                              let (node, key) = missing_credentials_lem resp given in
                              let x =
                                enrolled_exchange cl resp node
                                  (answer_of_lem _ resp (sym asked ∙ answered)) in
                              record {
                                request = x.0;
                                response = x.1;
                                buf = x.2;
                                asked = x.3;
                                exchanged = p.1 ∙ x.4;
                                accepted = (x.5, x.6);
                                resp = resp;
                                decoded = x.7;
                                node_given = node;
                                key_given = key;
                                stored = record_of base resp at;
                                stored_node = refl;
                                stored_key = refl;
                                stored_base = refl;
                                written = p.0;
                              })

-- An enrollment without an error has sent one request, with the token and the facts, which Central
-- answered with a status from 200 to 299; the node id and the key that this answer decodes to are
-- not blank and are, each as it is, those of the record in the enrollment file, which has mode 0600,
-- and no other file but a temporary one has changed. With an error no file but a temporary one has
-- changed, so an earlier enrollment stays. The hypothesis is that `os.CreateTemp` never gives the
-- temporary file the name of the enrollment file.
pub run-IsEnrolled :
    ⦃u : Unicode⦄ (os : Os) (http : Http) (json : Json) (codec : Codec) (cfg : Config)
    (base token : Text) (facts : NodeFacts) (w : Machine)
    (apart : (s : Sys)
      → enrollment cfg.state_dir ≢ os.temp_name s (dir (enrollment cfg.state_dir)) (codes ".rp-*"))
    → let x = run os http json codec cfg base token facts w in
      ((x.0 ≡ go tt) × IsEnrolled os http json codec cfg base token facts apart w x.1)
      ⊎ ((e : Text) × (x.0 ≡ stop (some e)) × IsKept os codec cfg.state_dir apart w x.1)
run-IsEnrolled os http json codec cfg base token facts w apart =
    Ensures-either (run-Ensures os http json codec cfg base token facts apart w) w refl
      (λ a e h. inl (e, h)) (λ e q h. inr (h.0.0, q ∙ ap stop h.0.1, h.1))
