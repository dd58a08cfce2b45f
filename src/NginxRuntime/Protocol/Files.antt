-- ===== src/NginxRuntime/Protocol/Files.antt =====
-- A run touches nothing but the site's own files.
use releasepanel_agent.Base.{
  ◌≡◌, ◌⊎◌, inl, inr, refl, sym, Option, none, some, List, [], ◌∷◌, ◌++◌, Any, subst,
}
use releasepanel_agent.Text.{Text, trim_space, Unicode}
use releasepanel_agent.FilePath.{dir, clean}
use releasepanel_agent.System.{
  Event, reported, executed, touched, read_file, Os, Sys, report, ok, FileCall, mkdir_all,
  create_temp, create_new, append, sync, close, lstat, readlink, remove, write, chmod, rename,
  symlink_to,
}
use releasepanel_agent.System.Trace
use releasepanel_agent.NginxRuntime.Rows.{Options}
use releasepanel_agent.NginxRuntime.Converge.{run, render_input}
use releasepanel_agent.NginxRuntime.TlsIntent.{TlsMaterialization}
use releasepanel_agent.NginxRuntime.Render.{render_site_config}
use releasepanel_agent.NginxRuntime.SiteFiles.{site_config_paths}
use releasepanel_agent.NginxRuntime.Converge.Refines.{converge-refines-protocol}
use releasepanel_agent.NginxRuntime.Protocol.{
  Stage, starting, prepared, ready, IsPrepared, IsTempName, writing, filling, placed, Step, rooted,
  announced, refused, gave_up, made, created, not_created, filled, renamed, not_renamed, cleaned,
  made_link, no_link, passed, rejected, reload_passed, reload_rejected, applied, reload_applied,
  Silent, idle, active, checked, resumed, rendered, kept_link, IsFilling, writes, syncs, closes,
  sets_mode, removes,
}

module _ ⦃u : Unicode⦄ (o : Options) (os : Os) where
  -- The two paths of the site, and a text that is its rendered configuration.
  abbrev IsSite : Text → Text → Type 0
  IsSite a e =
      site_config_paths o.nginx_sites_available_root o.nginx_sites_enabled_root o.intent.site_ulid
      ≡ ok (a, e)

  abbrev IsConf : Text → Type 0
  IsConf conf =
      (w : Text) × (m : Option TlsMaterialization) × IsPrepared o w m
      × (render_site_config (render_input o w m) ≡ ok conf)

  abbrev HasCreated : Text → Event → Type 0
  HasCreated tmp (reported row x) = ⊥
  HasCreated tmp (executed c r) = ⊥
  HasCreated tmp (touched (create_temp p) x) = (p ≡ tmp) × (x ≡ none)
  HasCreated tmp (touched c x) = ⊥

  -- A path that the run has created as a temporary file.
  abbrev IsTemp : List Event → Text → Type 0
  IsTemp l tmp = Any (HasCreated tmp) l

  -- What a call may be, after the events `l`.
  abbrev IsOwnCall : List Event → FileCall → Type 0
  IsOwnCall l (mkdir_all p) =
      (p ≡ clean (trim_space o.nginx_sites_available_root))
      ⊎ (p ≡ clean (trim_space o.nginx_sites_enabled_root))
      ⊎ ((a : Text) × (e : Text) × IsSite a e × (p ≡ dir a))
  IsOwnCall l (create_temp p) = (a : Text) × (e : Text) × IsSite a e × IsTempName os (dir a) p
  IsOwnCall l (write p t) = IsTemp l p × IsConf t
  IsOwnCall l (sync p) = IsTemp l p
  IsOwnCall l (close p) = IsTemp l p
  IsOwnCall l (chmod p mode) = IsTemp l p × (mode ≡ 0o644)
  IsOwnCall l (rename p q) = IsTemp l p × (e : Text) × IsSite q e
  IsOwnCall l (remove p) = IsTemp l p ⊎ ((a : Text) × IsSite a p)
  IsOwnCall l (symlink_to target p) = IsSite target p
  IsOwnCall l (create_new p) = ⊥
  IsOwnCall l (append p t) = ⊥
  IsOwnCall l (lstat p) = ⊥
  IsOwnCall l (readlink p) = ⊥
  IsOwnCall l (read_file p) = ⊥

  abbrev pub AreOwn : List Event → Type 0
  AreOwn [] = Unit
  AreOwn (reported row x ∷ l) = AreOwn l
  AreOwn (executed c r ∷ l) = AreOwn l
  AreOwn (touched c x ∷ l) = IsOwnCall l c × AreOwn l

  abbrev Known : Stage → List Event → Type 0
  Known (writing a e conf) l = IsSite a e × IsConf conf × AreOwn l
  Known (filling tmp a e conf) l = IsTemp l tmp × IsSite a e × IsConf conf × AreOwn l
  Known (placed tmp a e) l = IsTemp l tmp × IsSite a e × AreOwn l
  Known (prepared w m) l = IsPrepared o w m × AreOwn l
  Known (ready w m) l = IsPrepared o w m × AreOwn l
  Known _ l = AreOwn l

  Known-own : (σ : Stage) (l : List Event) → Known σ l → AreOwn l
  Known-own (writing a e conf) l h = h.2
  Known-own (filling tmp a e conf) l h = h.3
  Known-own (placed tmp a e) l h = h.2
  Known-own (prepared w m) l h = h.1
  Known-own (ready w m) l h = h.1
  Known-own _ l h = h

  root_own :
      (l : List Event) (root : Text)
      → (root ≡ o.nginx_sites_available_root) ⊎ (root ≡ o.nginx_sites_enabled_root)
      → IsOwnCall l (mkdir_all (clean (trim_space root)))
  root_own l root (inl q) = inl (cc q)
  root_own l root (inr q) = inr (inl (cc q))

  filling_own :
      {tmp conf : Text} {c : FileCall} (l : List Event)
      → IsFilling tmp conf c
      → IsTemp l tmp
      → IsConf conf
      → IsOwnCall l c
  filling_own l writes t k = (t, k)
  filling_own l syncs t k = t
  filling_own l closes t k = t
  filling_own l sets_mode t k = (t, refl)
  filling_own l removes t k = inl t

  removed_own :
      {tmp a e p : Text} (l : List Event)
      → (p ≡ tmp) ⊎ (p ≡ e)
      → IsTemp l tmp
      → IsSite a e
      → IsOwnCall l (remove p)
  removed_own l (inl q) t k = inl (subst (IsTemp l) (sym q) t)
  removed_own {a = a} l (inr q) t k = inr (a, subst (IsSite a) (sym q) k)

  step-Known :
      (σ τ : Stage) (e : Event) (new : List Event)
      → Step os o σ e τ
      → Known σ new
      → Known τ (e ∷ new)
  step-Known σ τ e new (rooted {root = root} q) h = (root_own new root q, h)
  step-Known σ τ e new (announced row q d) h = h
  step-Known σ τ e new (refused row q d) h = h.1
  step-Known σ τ e new (gave_up may f y) h = Known-own σ new h
  step-Known σ τ e new made h = (h.0, h.1, (inr (inr (_, _, h.0, refl)), h.2))
  step-Known σ τ e new (created n) h = (inl (refl, refl), h.0, h.1, ((_, _, h.0, n), h.2))
  step-Known σ τ e new (not_created n) h = ((_, _, h.0, n), h.2)
  step-Known σ τ e new (filled is) h = (inr h.0, h.1, h.2, (filling_own new is h.0 h.2, h.3))
  step-Known σ τ e new renamed h = (inr h.0, h.1, ((h.0, _, h.1), h.3))
  step-Known σ τ e new not_renamed h = (inr h.0, h.1, h.2, ((h.0, _, h.1), h.3))
  step-Known σ τ e new (cleaned p) h = (inr h.0, h.1, (removed_own new p h.0 h.1, h.2))
  step-Known σ τ e new made_link h = (h.1, h.2)
  step-Known σ τ e new no_link h = (h.1, h.2)
  step-Known σ τ e new (passed p q) h = h
  step-Known σ τ e new (rejected p q) h = h
  step-Known σ τ e new (reload_passed leg p q) h = h
  step-Known σ τ e new (reload_rejected leg p q) h = h
  step-Known σ τ e new (applied leg row q) h = h
  step-Known σ τ e new (reload_applied row q) h = h

  silent-Known : (σ τ : Stage) (new : List Event) → Silent o σ τ → Known σ new → Known τ new
  silent-Known σ τ new (idle a b c) h = h
  silent-Known σ τ new (active leg) h = h
  silent-Known σ τ new (checked p) h = (p, h)
  silent-Known σ τ new (resumed p) h = h
  silent-Known σ τ new (rendered p q) h = (q, (_, _, h.0, p), h.1)
  silent-Known σ τ new kept_link h = h.2

  -- A run touches nothing but the two roots, the site's file and link at the paths that
  -- `siteConfigPaths` gives, and temporary files that it has created itself under a name that the
  -- system gives for the directory of the site's file. What it writes is the configuration that is
  -- rendered from the intent's own web root, which was allowed, and from the TLS files of the intent;
  -- only a temporary file takes the place of the site's file.
  pub run-touches-own :
      (s : Sys)
      → (new : List Event) × ((run os (some (report os)) o s).1.log ≡ new ++ s.log) × AreOwn new
  run-touches-own s =
      let (new, split, h) =
        Trace.Trace-induction starting (Step os o) (Silent o) s.log Known tt step-Known silent-Known
          (converge-refines-protocol os o s) in
      (new, split, h)
