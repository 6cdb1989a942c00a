-- ===== src/Daemon/Ready.antt =====
-- What holds when a program gets to its main loop, and when it does not get there.
use fwknox.Base.{
  ℕ, ◌≡◌, ◌<◌, refl, ap, sym, subst, ◌∙◌, true, Option, none, some, [], ◌∷◌, arith, Result, ok, err,
  map_err-eq-ok, nat_eq, list_eq, Result-cases, Bool-cases, inl, inr, ok-injective,
}
use fwknox.Base.Action.{gets, call, mapped_err-err, after_step}
use fwknox.Base.Text.{Text}
use fwknox.Base.Lru.{Lru, IsLru, IsEntries, put_entry-IsEntries}
use fwknox.Config.Types.{FilePath, FirewallKind, nftables, iptables, DaemonConfig}
use fwknox.Config.Validate.{validate}
use fwknox.Config.Valid.{IsValid, validate-IsValid}
use fwknox.Config.Client.{load_config}
use fwknox.Replay.Cache.{
  Nonce, Entries, ReplayError, Store, with_capacity, set_persist_path, put_all, load_from_file,
  default_max_entries,
}
use fwknox.Replay.Check.{IsStore}
use fwknox.Daemon.Host.{Host}
use fwknox.RateLimit.Key.{SourceKey}
use fwknox.RateLimit.Bucket.{Float, TokenBucket}
use fwknox.RateLimit.Limiter.{with_clock}
use fwknox.RateLimit.Counts.{with_clock-AreRoomy}
use fwknox.Sandbox.System.{System, cap_setgid}
use fwknox.Sandbox.Steps.{contains, is_root}
use fwknox.Sandbox.Linux.{Seen, HasCapabilities}
use fwknox.Sandbox.Apply.{apply}
use fwknox.Sandbox.Stranded.{apply-stranded}
use fwknox.Workers.Ipc.{Codec}
use fwknox.Daemon.Privsep.{CryptoMsg}
use fwknox.Daemon.Loop.{IsSound, entering}
use fwknox.Daemon.Boot.{
  Launch, loaded_capacity, BootError, config_error, sandbox_error, choose_backend, cache_capacity,
  open_cache, with_path, load_cache, sandbox_config, apply_sandbox, protect_if, Served, booted,
  dispatch, load, real_main,
}

module _ {l : Lru Nonce ℕ} (lru : IsLru l) where
  cap-put_all : (m : Entries) (c : l.Cache) → l.cap (put_all l m c) ≡ l.cap c
  unfolding put_all
  cap-put_all [] c = refl
  cap-put_all ((k, ts) ∷ m) c = cap-put_all m (l.put k ts c) ∙ lru.cap-put k ts c

  put_all-IsEntries :
      (size : ℕ) (m : Entries) (c : l.Cache)
      → 0 < size
      → l.cap c ≡ size
      → IsEntries size (l.iter c)
      → IsEntries size (l.iter (put_all l m c))
  unfolding put_all
  put_all-IsEntries size [] c room fits h = h
  put_all-IsEntries size ((k, ts) ∷ m) c room fits h =
      put_all-IsEntries size m (l.put k ts c) room (lru.cap-put k ts c ∙ fits)
        (rw (lru.iter-put k ts c, fits) (put_entry-IsEntries size k ts (l.iter c) room h))

  new-IsEntries : (size : ℕ) → IsEntries size (l.iter (l.new size))
  new-IsEntries size = rw (lru.iter-new size) (record { bounded = omega arith; distinct = tt })

  fresh-IsStore :
      (size : ℕ) (path : Option FilePath) (disk : Entries)
      → 0 < size
      → IsStore lru (record { inner = l.new size; persist_path = path; disk = disk })
  fresh-IsStore size path disk room = record {
    room = rw (lru.cap-new size) room;
    entries = rw (lru.cap-new size) (new-IsEntries size);
  }

  -- A well-formed cache of so many places.
  pub record IsStoreOf (size : ℕ) (s : Store l) : Type 0 where
    pub store : IsStore lru s
    pub capacity : l.cap s.inner ≡ size

  load_from_file-IsStoreOf :
      (found : Result ReplayError Entries) {s : Store l}
      → load_from_file l found ≡ ok s
      → IsStoreOf default_max_entries s
  unfolding load_from_file
  load_from_file-IsStoreOf (ok m) h =
      let cap = cap-put_all m (l.new default_max_entries) ∙ lru.cap-new default_max_entries in
      subst (IsStoreOf default_max_entries) (ok-injective h) (record {
        store = record {
          room = rw cap (omega arith);
          entries = rw cap (
              put_all-IsEntries default_max_entries m (l.new default_max_entries) (omega arith)
                (lru.cap-new default_max_entries) (new-IsEntries default_max_entries));
        };
        capacity = cap;
      })
  load_from_file-IsStoreOf (err e) h = absurd (cc)

module _ (host : Host) (lru : IsLru host.lru) where
  open_cache-IsStoreOf :
      (launch : Launch) (config : DaemonConfig) {s : Store host.lru}
      → open_cache host launch config ≡ ok s
      → IsStoreOf lru (loaded_capacity launch config) s
  unfolding open_cache with_capacity cache_capacity
  open_cache-IsStoreOf launch config h = elim (Bool-cases launch.cache_exists) [
    | inl there ↦ rw there (load_from_file-IsStoreOf lru _ (rw there at h))
    | inr absent ↦ rw absent (
        subst (IsStoreOf lru (cache_capacity config)) (ok-injective (rw absent at h)) (record {
          store = fresh-IsStore lru (cache_capacity config) none [] (ground arith);
          capacity = lru.cap-new (cache_capacity config);
        }))
  ]

  with_path-IsStoreOf :
      (size : ℕ) (path : FilePath) (opened : Result ReplayError (Store host.lru))
      {s : Store host.lru}
      → with_path host path opened ≡ ok s
      → ((t : Store host.lru) → opened ≡ ok t → IsStoreOf lru size t)
      → IsStoreOf lru size s × (s.persist_path ≡ some path)
  unfolding with_path set_persist_path
  with_path-IsStoreOf size path (ok t) h opened =
      let old = opened t refl in
      subst (λ s. IsStoreOf lru size s × (s.persist_path ≡ some path)) (ok-injective h)
        (
          record {
            store = record { room = old.store.room; entries = old.store.entries };
            capacity = old.capacity;
          },
          refl,
        )
  with_path-IsStoreOf size path (err e) h opened = absurd (cc)

  load_cache-IsStoreOf :
      (launch : Launch) (config : DaemonConfig) {s : Store host.lru}
      → load_cache host launch config ≡ ok s
      → IsStoreOf lru (loaded_capacity launch config) s
        × (s.persist_path ≡ some config.replay.cache_path)
  unfolding load_cache
  load_cache-IsStoreOf launch config h =
      with_path-IsStoreOf (loaded_capacity launch config) config.replay.cache_path
        (open_cache host launch config) h (λ t e. open_cache-IsStoreOf launch config e)

load_config-eq-ok :
    {E : Type 0} (from_str : Text → Option DaemonConfig)
    (check : DaemonConfig → Result E (Unit {0})) (path : FilePath) (text : Option Text)
    {c : DaemonConfig}
    → load_config from_str check path text ≡ ok c
    → check c ≡ ok tt
unfolding load_config
load_config-eq-ok from_str check path none h = absurd (cc)
load_config-eq-ok from_str check path (some text) h = ground arith

choose_backend-eq-ok :
    (kind : FirewallKind) {u : Unit {0}} → choose_backend kind ≡ ok u → kind ≡ nftables
unfolding choose_backend
choose_backend-eq-ok nftables h = refl
choose_backend-eq-ok iptables h = absurd (cc)

module _ (sys : System) (host : Host) (lru : IsLru host.lru) (new_backend : host.firewall.State)
    (f : Float) (l : Lru SourceKey (TokenBucket f)) (c : Codec CryptoMsg)
    (from_str : Text → Option DaemonConfig) where
  -- What a program has made sure of when it enters its loop, from there on as `dispatch` says.
  pub record IsReady (launch : Launch) (served : Served sys host new_backend f l c from_str)
      (config : DaemonConfig) (store : Store host.lru) : Type 0 where
    pub loaded : load sys host new_backend f l c from_str launch ≡ ok config
    pub valid : IsValid config
    pub backend : config.daemon.firewall_backend ≡ nftables
    pub capacity : host.lru.cap store.inner ≡ loaded_capacity launch config
    pub saves : store.persist_path ≡ some config.replay.cache_path
    pub sound : IsSound host lru f l config (
        entering host lru f l config
          (booted sys host new_backend f l c from_str store)
          (with_clock f l config.rate_limit launch.limiter_now))
    pub dispatched :
        dispatch sys host new_backend f l c from_str config.daemon.enable_privsep launch config
          store
        ≡ ok served

  -- With the laws of the `lru` crate, whatever the file system, the sockets and the kernel have given:
  -- when `fwknoxd` gets past its start, it has loaded a configuration that is valid and wants the
  -- nftables backend, its replay cache is well formed, whatever the cache file held, has the configured
  -- number of places if the file was not there, else 10,000, and saves to the configured path, the invariant of the main loop holds on the state that it enters with, and it
  -- leaves and returns what the loop of the configured mode does.
  pub real_main-IsReady :
      (launch : Launch) (p : sys.Process) {served : Served sys host new_backend f l c from_str}
      → (real_main sys host new_backend f l c from_str launch p).1 ≡ ok served
      → (config : DaemonConfig) × (store : Store host.lru) × IsReady launch served config store
  unfolding real_main gets load
  real_main-IsReady launch p {served} h =
      let G =
        (config : DaemonConfig) × (store : Store host.lru) × IsReady launch served config store in
      after_step (λ x. G) _ _ p h
        λ config loaded h.
          after_step (λ x. G) _ _ p h
            λ u chosen h.
              after_step (λ x. G) _ _ p h
                λ v bound h.
                  after_step (λ x. G) _ _ p h
                    λ store opened h.
                      after_step (λ x. G) _ _ p h
                        λ w protected h.
                          let (opened_well, saves) =
                            load_cache-IsStoreOf host lru launch config opened in
                          (
                            config,
                            store,
                            record {
                              loaded = loaded;
                              valid = (validate-IsValid config).0 (
                                  load_config-eq-ok from_str validate launch.config_path
                                    launch.config_text (map_err-eq-ok config_error _ loaded));
                              backend = choose_backend-eq-ok config.daemon.firewall_backend chosen;
                              saves = saves;
                              capacity = opened_well.capacity;
                              sound = record {
                                store = opened_well.store;
                                roomy =
                                    with_clock-AreRoomy f l config.rate_limit launch.limiter_now;
                              };
                              dispatched = h;
                            },
                          )

  names_user :
      (config : DaemonConfig) (p : sys.Process)
      → is_root sys p ≡ true
      → (sandbox_config sys config p).drop_to
        ≡ some (record { user = config.daemon.run_user; group = config.daemon.run_group })
  unfolding sandbox_config
  names_user config p root = rw root refl

  -- `setgroups` stands in the way.
  protect_if-stranded :
      (o : Seen sys) (config : DaemonConfig) (p : sys.Process)
      → HasCapabilities sys o
      → contains sys.all_caps cap_setgid ≡ true
      → is_root sys p ≡ true
      → (e : BootError) × ((protect_if sys true config p).1 ≡ err e)
  unfolding protect_if apply_sandbox call sandbox_config
  protect_if-stranded o config p linux there root =
      let (e, failed) =
        apply-stranded sys o linux (sandbox_config sys config p)
          (record { user = config.daemon.run_user; group = config.daemon.run_group }) p
          (names_user config p root) there refl in
      (
        sandbox_error e,
        mapped_err-err sandbox_error (apply sys (sandbox_config sys config p) p) failed,
      )

  -- Over a kernel with the documented laws of capabilities: `fwknoxd` does not get to its loop when
  -- it runs as root with the sandbox enabled.
  pub real_main-stranded :
      (o : Seen sys) (launch : Launch) (config : DaemonConfig) (p : sys.Process)
      → HasCapabilities sys o
      → contains sys.all_caps cap_setgid ≡ true
      → is_root sys p ≡ true
      → load sys host new_backend f l c from_str launch ≡ ok config
      → config.daemon.enable_sandbox ≡ true
      → (e : BootError) × ((real_main sys host new_backend f l c from_str launch p).1 ≡ err e)
  unfolding real_main gets
  real_main-stranded o launch config p linux there root loaded enabled =
      let out = real_main sys host new_backend f l c from_str launch p in
      let G = (e : BootError) × (out.1 ≡ err e) in
      elim (Result-cases out.1) [
        | inr (e, failed) ↦ (e, failed)
        | inl (served, went) ↦
            after_step (λ x. G) _ _ p went
              λ config' loaded' h.
                after_step (λ x. G) _ _ p h
                  λ u chosen h.
                    after_step (λ x. G) _ _ p h
                      λ v bound h.
                        after_step (λ x. G) _ _ p h
                          λ store opened h.
                            after_step (λ x. G) _ _ p h
                              λ w protected h.
                                let same : config' ≡ config = ok-injective (sym loaded' ∙ loaded) in
                                let passed =
                                  sym (ap (λ b. (protect_if sys b config p).1) enabled)
                                  ∙ ap (λ q. (protect_if sys q.daemon.enable_sandbox q p).1)
                                      (sym same)
                                  ∙ protected in
                                let (e, stopped) =
                                  protect_if-stranded o config p linux there root in
                                absurd (cc)
      ]
