-- ===== src/Example/Stops.antt =====
-- The example program starts, and stops on Ctrl+C.
use filestore.Base.{
  zero, suc, ◌+◌, arith, sym, subst, length, Option-cases, ℕ, ◌≤◌, ◌≡◌, ◌≢◌, ◌⊎◌, inr, refl, ap,
  ◌∙◌, Bool, true, inl, List, [], ◌∷◌, Option, none, some,
}
use filestore.Text.{Text, codes}
use filestore.Tokio.{Tokio, IsLawful}
use filestore.Net.{is_socket_addr}
use filestore.Server.{Service, Event, Poll, ready, spawned, running, shutdown, step}
use filestore.Server.Reporters.{step-length}
use filestore.Server.Stop.{JoinsAll}
use filestore.Server.Schedules.{Schedule, runs, always_stops}
use filestore.Server.Grpc.{
  Tonic, GrpcServiceHandler, start_grpc_server, serve, spawn_reporters, build_reflection_service,
  file_descriptor_sets,
}
use filestore.Logging.{
  default_options, default_tracing_options, Writer, stdout, Globals, Telemetry, tonic,
  default_otlp_grpc_endpoint, exporter_config,
}
use filestore.Logging.Console.{default_tracing-ConsoleIs}
use filestore.Logging.Setup.{init_global_logging}
use filestore.Logging.Setup.Expected.{IsUntouched, FilterIs}
use filestore.Logging.Setup.First.{first_call}
use filestore.Example.{
  logging_opts, config, listening, stopping, after_logging, unwrap_start, hello_server,
  after_ctrl_c, main_end, Program, server_step,
}

exporter : exporter_config logging_opts ≡ tonic default_otlp_grpc_endpoint
unfolding exporter_config logging_opts default_options
exporter = refl

module _ (T : Tokio) (L : IsLawful T) (M : Telemetry) (N : Tonic) where
  -- What the program prints when it listens.
  abbrev pub announcement : Text
  announcement = codes "Hello server listening on [::1]:50051\n"

  listens :
      (service : GrpcServiceHandler N) (r : N.GrpcService)
      (done : Globals M.Targets × Option (List Writer)) (guards : List Writer)
      → build_reflection_service N (file_descriptor_sets N (service ∷ [])) ≡ some r
      → done.1 ≡ some guards
      → after_logging T M N service done
        ≡ listening announcement done.0 guards (spawned T (running ∷ []))
  unfolding after_logging unwrap_start start_grpc_server config serve spawn_reporters is_socket_addr
      filestore.Server.Grpc.default_config spawned
  listens service r (g, none) guards builds h = cc
  listens service r (g, some given) guards builds h =
      let same : given ≡ guards = cc in rw (builds, same) refl

  -- The server when the program listens.
  abbrev pub listening_server : Service T
  listening_server = spawned T (running ∷ [])

  -- The program after some steps of the server, each of which must be possible.
  abbrev pub runs_on : Program T M N → List Event → Option (Program T M N)
  runs_on p [] = some p
  runs_on p (e ∷ es) = elim (server_step T M N p e) [ none ↦ none | some q ↦ runs_on q es ]

  -- Steps that each change something, and their number.
  pub data Continues : Program T M N → ℕ → Program T M N → Type 0 where
    rests : {p : Program T M N} → Continues p 0 p
    steps :
        {p q r : Program T M N} {n : ℕ} (e : Event)
        → server_step T M N p e ≡ some q
        → q ≢ p
        → Continues q n r
        → Continues p (suc n) r

  -- While the program listens, it goes on listening.
  still_listening :
      (text : Text) (g : Globals M.Targets) (guards : List Writer) (s : Service T) (es : List Event)
      (p : Program T M N)
      → runs_on (listening text g guards s) es ≡ some p
      → (t : Service T) × (p ≡ listening text g guards t)
        × (length t.reporter_handles ≡ length s.reporter_handles)
  unfolding server_step
  still_listening text g guards s [] p h = (s, cc, refl)
  still_listening text g guards s (e ∷ es) p h =
      elim (Option-cases (step T filestore.Server.grpc s e)) [
        | inl stops ↦ let bad : none ≡ some p = rw (stops, runs_on, server_step) at h in cc
        | inr (u, goes) ↦
            let rest : runs_on (listening text g guards u) es ≡ some p =
              rw (goes, runs_on, server_step) at h in
            let (t, same, kept) = still_listening text g guards u es p rest in
            (t, same, kept ∙ step-length T filestore.Server.grpc s u e goes)
      ]

  server_of : Service T → Program T M N → Service T
  server_of other (stopping g guards s) = s
  server_of other p = other

  -- While it waits for the tasks, its steps are those of the server.
  stopping-Schedule :
      (n : ℕ) (g : Globals M.Targets) (guards : List Writer) (s : Service T) (q : Program T M N)
      → Continues (stopping g guards s) n q
      → (t : Service T) × (q ≡ stopping g guards t) × Schedule T L filestore.Server.grpc s n t
  unfolding server_step
  stopping-Schedule zero g guards s q rests = (s, refl, Schedule.rests)
  stopping-Schedule (suc n) g guards s q (steps {q = p} e goes changes more) =
      elim (Option-cases (step T filestore.Server.grpc s e)) [
        | inl stops ↦ let bad : none ≡ some p = rw (stops, server_step) at goes in cc
        | inr (u, possible) ↦
            let next : some (stopping g guards u) ≡ some p = rw (possible, server_step) at goes in
            let after : p ≡ stopping g guards u = cc in
            let (t, same, schedule) =
              stopping-Schedule n g guards u q (subst (λ r. Continues r n q) after more) in
            (
              t,
              same,
              runs e possible (λ unchanged. changes (after ∙ ap (stopping g guards) unchanged))
                  schedule,
            )
      ]

  four_and_one : (n m : ℕ) → n ≤ 4 + m → m ≡ 1 → n ≤ 5
  four_and_one n m h e = omega arith

  -- What is left of a stop of the server is left of the program.
  stops :
      (g : Globals M.Targets) (guards : List Writer) (s : Service T) (q : Program T M N) (n : ℕ)
      (join_all : List (Poll Bool) → Poll (List Bool))
      → JoinsAll join_all
      → Continues (stopping g guards (shutdown T s)) n q
      → (n ≤ 4 + length s.reporter_handles)
        × ((main_end T M N join_all q ≡ ready tt)
            ⊎ ((e : Event) × (u : Program T M N) × (server_step T M N q e ≡ some u) × (u ≢ q)))
  unfolding main_end server_step server_of
  stops g guards s q n join_all joins more =
      let (t, same, schedule) = stopping-Schedule n g guards (shutdown T s) q more in
      let (few, ends) = always_stops T L filestore.Server.grpc s t n join_all joins schedule in
      (
        few,
        subst
            (λ r.
              (main_end T M N join_all r ≡ ready tt)
              ⊎ ((e : Event) × (u : Program T M N) × (server_step T M N r e ≡ some u) × (u ≢ r)))
            (sym same)
            (elim ends [
              | inl (done, over) ↦ inl over
              | inr (e, u, possible, changes) ↦ inr (
                e,
                stopping g guards u,
                rw (possible, server_step) refl,
                λ unchanged. changes (ap (server_of t) unchanged),
              )
            ]),
      )

  stops_from :
      (g : Globals M.Targets) (before : List Event) (p q : Program T M N) (n : ℕ)
      (join_all : List (Poll Bool) → Poll (List Bool))
      → JoinsAll join_all
      → runs_on (listening announcement g (stdout ∷ []) listening_server) before ≡ some p
      → Continues (after_ctrl_c T M N true p) n q
      → (n ≤ 5)
        × ((main_end T M N join_all q ≡ ready tt)
            ⊎ ((e : Event) × (u : Program T M N) × (server_step T M N q e ≡ some u) × (u ≢ q)))
  unfolding after_ctrl_c spawned
  stops_from g before p q n join_all joins ran more =
      let (s, same, kept) =
        still_listening announcement g (stdout ∷ []) listening_server before p ran in
      let (few, ends) =
        stops g (stdout ∷ []) s q n join_all joins
          (subst (λ a. Continues (after_ctrl_c T M N true a) n q) same more) in
      (four_and_one n (length s.reporter_handles) few kept, ends)

  -- The example program, in a process where nothing has set up logging: when the runtime can be
  -- built, the logging finds a filter and an exporter for the default gRPC endpoint, and the
  -- reflection service builds, it listens, with its server just spawned and the guard of its stdout
  -- writer alive. However the server and its readiness task run until the Ctrl+C, after it, in
  -- whatever order they run, they take at most five steps that change something, and as long as
  -- `main`, with a `join_all` that joins all its futures, has not returned, another such step is
  -- possible.
  pub example_stops :
      (service : GrpcServiceHandler N) (g : Globals M.Targets) (f : M.Targets) (r : N.GrpcService)
      (join_all : List (Poll Bool) → Poll (List Bool)) (before : List Event) (p q : Program T M N)
      (n : ℕ)
      → build_reflection_service N (file_descriptor_sets N (service ∷ [])) ≡ some r
      → IsUntouched M g
      → FilterIs M logging_opts f
      → M.build_exporter (tonic default_otlp_grpc_endpoint) ≡ true
      → JoinsAll join_all
      → runs_on (hello_server T M N true service g) before ≡ some p
      → Continues (after_ctrl_c T M N true p) n q
      → ((after : Globals M.Targets) × (hello_server T M N true service g
            ≡ listening announcement after (stdout ∷ []) listening_server))
        × (n ≤ 5)
        × ((main_end T M N join_all q ≡ ready tt)
            ⊎ ((e : Event) × (u : Program T M N) × (server_step T M N q e ≡ some u) × (u ≢ q)))
  unfolding hello_server logging_opts default_options default_tracing_options
  example_stops service g f r join_all before p q n builds untouched filter exports joins ran more =
      let (given, once, reload, rest) =
        first_call M (codes "hello-server") none logging_opts default_tracing_options g f none
          untouched (default_tracing-ConsoleIs M.tokio_console) (inl refl) filter
          (λ on. ap M.build_exporter exporter ∙ exports) in
      let done =
        init_global_logging M (codes "hello-server") none logging_opts default_tracing_options g in
      let starts : after_logging T M N service done
          ≡ listening announcement done.0 (stdout ∷ []) listening_server =
        listens service r done (stdout ∷ []) builds given in
      let (few, ends) =
        stops_from done.0 before p q n join_all joins
          (subst (λ a. runs_on a before ≡ some p) starts ran) more in
      ((done.0, starts), few, ends)
