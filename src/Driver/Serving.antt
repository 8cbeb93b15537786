-- ===== src/Driver/Serving.antt =====
-- When `serve` of pkg/gce-csi-driver/server.go listens.
use compute_persistent_disk.Prelude.{
  String, ◌<>◌, ◌≡◌, ◌≢◌, ◌⊎◌, inl, inr, refl, true, Option, none, some, List, [], ap, sym, subst,
  ◌∙◌, arith, ◌==◌, eq_iff, Bool-cases, Option-cases,
}
use compute_persistent_disk.Go.Error.{
  Err, errorf, str, error, end, answer, Answer-cases, is_not_exist,
}
use compute_persistent_disk.Go.Handler.{next, done}
use compute_persistent_disk.Driver.Server.{
  parse_endpoint, Service, Served, fatal, listening, Net, registered, prepared, serve,
}

module _ (net : Net) where
  open net use {State}

  -- A removal after which nothing is at the path: it succeeded, or there was nothing.
  abbrev pub Cleared : Option Err → Type 0
  Cleared r = (r ≡ none) ⊎ ((failure : Err) × (r ≡ some failure) × (is_not_exist failure ≡ true))

  -- The path to listen on for an address, and the state after the removal of an old socket.
  abbrev pub Prepared : String → String → State → String → State → Type 0
  Prepared proto addr s path u =
      ((proto ≡ "unix")
        × (path ≡ "/" <> addr)
        × Cleared (net.remove path s).0
        × ((net.remove path s).1 ≡ u))
      ⊎ ((proto ≢ "unix") × (path ≡ addr) × (s ≡ u))

  -- A step that prepared a path went on with it.
  prepared-Prepared :
      (proto addr : String) (s : State)
      → ((failure : Err) × ((prepared net proto addr s).0 ≡ done (fatal failure)))
        ⊎ ((path : String) × ((prepared net proto addr s).0 ≡ next path)
            × Prepared proto addr s path (prepared net proto addr s).1)
  prepared-Prepared proto addr s = elim (Bool-cases (proto == "unix")) [
    | inr n ↦ inr (addr, rw n refl, inr (ground (arith, eq_iff proto "unix"), refl, rw n refl))
    | inl e ↦
        let is_unix : proto ≡ "unix" = (eq_iff proto "unix").0 e in
        let (r, u) = net.remove ("/" <> addr) s in
        elim (Option-cases r) [
          | inl g ↦ inr ("/" <> addr, rw (e, g) refl, inl (is_unix, refl, inl g, rw e refl))
          | inr (failure, g) ↦ elim (Bool-cases (is_not_exist failure)) [
            | inl a ↦ inr (
              "/" <> addr,
              rw (e, g, a) refl,
              inl (is_unix, refl, inr (failure, g, a), rw e refl),
            )
            | inr a ↦ inl (
              errorf "Failed to remove %s, error: %s" (str ("/" <> addr) (error failure end)),
              rw (e, g, a) refl,
            )
          ]
        ]
  ]

  abbrev listened : Served → String × String × List Service
  listened (listening proto path services) = (proto, path, services)
  listened (fatal e) = ("", "", [])

  -- Where `serve` listens, the endpoint is accepted with the protocol and an address; for the
  -- protocol `unix` the path is the address with a slash in front, and a file there was removed
  -- or there was none, for another protocol the path is the address; then the last call, to
  -- listen with the protocol at the path, succeeded, and the services are those of the servers
  -- that are not nil.
  pub serve-Prepared :
      {I C N : Type 0} (endpoint : String) (ids : Option I) (cs : Option C) (ns : Option N)
      (s : State) (proto path : String) (services : List Service)
      → (serve net endpoint ids cs ns s).0 ≡ listening proto path services
      → (addr : String) × (u : State) × (parse_endpoint endpoint ≡ answer (proto, addr))
        × Prepared proto addr s path u
        × (net.listen proto path u ≡ (none, (serve net endpoint ids cs ns s).1))
        × (services ≡ registered ids cs ns)
  unfolding serve
  serve-Prepared endpoint ids cs ns s proto path services h =
      elim (Answer-cases (parse_endpoint endpoint)) [
        | inr (failure, e) ↦ absurd (ground arith)
        | inl ((p, addr), e) ↦ elim (prepared-Prepared p addr s) [
          | inl (failure, f) ↦ absurd (ground arith)
          | inr (path', f, ready) ↦
              let u = (prepared net p addr s).1 in
              elim (Option-cases (net.listen p path' u).0) [
                | inr (failure, g) ↦ absurd (ground arith)
                | inl g ↦
                    let whole : serve net endpoint ids cs ns s
                        ≡ (listening p path' (registered ids cs ns), (net.listen p path' u).1) =
                      ground arith in
                    let same : listening p path' (registered ids cs ns)
                        ≡ listening proto path services =
                      sym (ap (λ (r : Served × State). r.0) whole) ∙ h in
                    subst
                      (λ (l : String × String × List Service).
                        (addr : String) × (u : State) × (parse_endpoint endpoint
                          ≡ answer (l.0, addr))
                        × Prepared l.0 addr s l.1 u
                        × (net.listen l.0 l.1 u ≡ (none, (serve net endpoint ids cs ns s).1))
                        × (l.2 ≡ registered ids cs ns))
                      (ap listened same)
                      (
                        addr,
                        u,
                        e,
                        ready,
                        (λ k. (g k, ap (λ (r : Served × State). r.1) (sym whole) k)),
                        refl,
                      )
              ]
        ]
      ]
