-- ===== src/Cloud/Connect.antt =====
-- `CreateCloudProvider` of pkg/gce-cloud-provider/gce.go: how the provider comes by its client, its
-- project and its zone. The OAuth library, the generated client and the metadata server are parameters.
use compute_persistent_disk.Prelude.{
  ◌*◌, String, ◌<>◌, Bool, true, false, ◌≡◌, inl, inr, Option-cases, ap, Option, none, some, arith,
}
use compute_persistent_disk.Go.Error.{
  Err, errorf, end, error, Answer, answer, refused, Answer-cases,
}
use compute_persistent_disk.Go.Handler.{Action, Body, next, ◌>>=◌, ◌>>◌, give, call, run}
use compute_persistent_disk.Cloud.Poll.{Poll, second, IsPoll, met_last}
use compute_persistent_disk.Cloud.Metadata.{Metadata, get_project_and_zone_from_metadata}

-- The libraries, over the state of the metadata server. `DefaultTokenSource` is given its scopes by
-- the driver; the client of `oauth2.NewClient` is what `compute.New` makes a service of.
pub record Libraries (metadata : Metadata) : Type 1 where
  pub TokenSource : Type 0
  pub Token : Type 0
  pub Client : Type 0
  pub Service : Type 0
  pub default_token_source : Action metadata.State (Answer TokenSource)
  pub token : TokenSource → Action metadata.State (Answer Token)
  pub poll_immediate : Poll metadata.State
  pub new_client : TokenSource → Client
  pub new_service : Client → Action metadata.State (Answer Service)
  -- `service.UserAgent = s`
  pub with_user_agent : String → Service → Service
  pub goos : String
  pub goarch : String

-- `CloudProvider`
pub record Connected (Service : Type 0) : Type 0 where
  pub service : Service
  pub project : String
  pub zone : String

module _ {metadata : Metadata} (lib : Libraries metadata) where
  open metadata use {State}

  -- Goes on with the value, or returns the error.
  abbrev or_return : {A B : Type 0} → Answer A → Body State (Answer B) A
  or_return (answer a) s = (next a, s)
  or_return (refused e) s = give (refused e) s

  abbrev or_refuse : {B : Type 0} → Option Err → Body State (Answer B) (Unit {0})
  or_refuse none s = (next tt, s)
  or_refuse (some e) s = give (refused e) s

  -- The condition of the poll: the error of a token that cannot be fetched is logged.
  abbrev fetched : Answer lib.Token → Bool × Option Err
  fetched (answer t) = (true, none)
  fetched (refused e) = (false, none)

  unfoldable pub token_condition : lib.TokenSource → Action State (Bool × Option Err)
  token_condition source s = let (t, s') = lib.token source s in (fetched t, s')

  unfoldable pub new_default_oauth_client : Action State (Answer lib.Client)
  unfolding token_condition
  new_default_oauth_client = run do
    found ← call lib.default_token_source
    source ← or_return found
    polled ← call (lib.poll_immediate (5 * second) (30 * second) (token_condition source))
    or_refuse polled
    give (answer (lib.new_client source))

  unfoldable pub create_cloud_service_with_default_service_account :
      Action State (Answer lib.Service)
  unfolding new_default_oauth_client
  create_cloud_service_with_default_service_account = run do
    connected ← call new_default_oauth_client
    client ← or_return connected
    made ← call (lib.new_service client)
    service ← or_return made
    give (
        answer (
          lib.with_user_agent
            ("GCE CSI Driver/0.2.0 (" <> (lib.goos <> (" " <> (lib.goarch <> ")")))) service))

  unfoldable pub create_cloud_service : Action State (Answer lib.Service)
  unfolding create_cloud_service_with_default_service_account
  create_cloud_service = create_cloud_service_with_default_service_account

  -- The error of the metadata server is put behind a message of its own.
  abbrev located : Answer (String × String) → Answer (String × String)
  located (answer r) = answer r
  located (refused e) =
      refused (errorf "Failed getting Project and Zone from Metadata server: %v" (error e end))

  unfoldable pub create_cloud_provider : Action State (Answer (Connected lib.Service))
  unfolding create_cloud_service get_project_and_zone_from_metadata
  create_cloud_provider = run do
    made ← call create_cloud_service
    service ← or_return made
    read ← call (get_project_and_zone_from_metadata metadata)
    (project, zone) ← or_return (located read)
    give (answer (record { service = service; project = project; zone = zone }))

module _ {metadata : Metadata} (lib : Libraries metadata) where
  -- A token of the source was fetched, in the state after which the machine is as given.
  abbrev pub Authenticated : lib.TokenSource → metadata.State → Type 0
  Authenticated source after =
      (token : lib.Token) × (before : metadata.State) × (lib.token source before
        ≡ (answer token, after))

  fetched_token :
      (source : lib.TokenSource) (u t : metadata.State)
      → token_condition lib source u ≡ ((true, none), t)
      → Authenticated source t
  unfolding token_condition
  fetched_token source u t h = elim (Answer-cases (lib.token source u).0) [
    | inl (token, e) ↦ (token, u, λ k. (e k, (h k).1))
    | inr (failure, e) ↦
        absurd (ground (arith, ap (λ (r : (Bool × Option Err) × metadata.State). r.0.0) h))
  ]

  -- The client is made of the default token source, after a token of that source was fetched.
  abbrev pub IsClient : metadata.State → lib.TokenSource → lib.Client → metadata.State → Type 0
  IsClient s source client after =
      ((lib.default_token_source s).0 ≡ answer source)
      × Authenticated source after
      × (lib.new_client source ≡ client)

  new_default_oauth_client-IsClient :
      (s : metadata.State) (client : lib.Client)
      → IsPoll lib.poll_immediate
      → (new_default_oauth_client lib s).0 ≡ answer client
      → (source : lib.TokenSource) × IsClient s source client (new_default_oauth_client lib s).1
  unfolding new_default_oauth_client
  new_default_oauth_client-IsClient s client law h =
      let (found, s1) = lib.default_token_source s in
      elim (Answer-cases found) [
        | inl (source, e) ↦
            let condition = token_condition lib source in
            elim (Option-cases (lib.poll_immediate (5 * second) (30 * second) condition s1).0) [
              | inl p ↦
                  let (u, last) = met_last (law (5 * second) (30 * second) condition s1) p in
                  (source, (e, rw (e, p) (fetched_token source u _ last), ground arith))
              | inr (failure, p) ↦ absurd (ground arith)
            ]
        | inr (failure, e) ↦ absurd (ground arith)
      ]

  -- `GCE CSI Driver/0.2.0 ($os $arch)`
  abbrev pub user_agent : String
  user_agent = "GCE CSI Driver/0.2.0 (" <> (lib.goos <> (" " <> (lib.goarch <> ")")))

  -- The service is made of the client, with the user agent of the driver.
  abbrev pub IsService : lib.Client → metadata.State → lib.Service → metadata.State → Type 0
  IsService client before service after =
      (made : lib.Service) × (lib.new_service client before ≡ (answer made, after))
      × (service ≡ lib.with_user_agent user_agent made)

  create_cloud_service-IsService :
      (s : metadata.State) (service : lib.Service)
      → (create_cloud_service lib s).0 ≡ answer service
      → (client : lib.Client) × ((new_default_oauth_client lib s).0 ≡ answer client)
        × IsService client (new_default_oauth_client lib s).1 service (create_cloud_service lib s).1
  unfolding create_cloud_service create_cloud_service_with_default_service_account
  create_cloud_service-IsService s service h =
      let (connected, t) = new_default_oauth_client lib s in
      elim (Answer-cases connected) [
        | inr (failure, e) ↦ absurd (ground arith)
        | inl (client, e) ↦ elim (Answer-cases (lib.new_service client t).0) [
          | inr (failure, f) ↦ absurd (ground arith)
          | inl (made, f) ↦
              let after : (lib.new_service client t).1 ≡ (create_cloud_service lib s).1 =
                ground arith in
              (client, e, (made, (λ k. (f k, after k)), ground arith))
        ]
      ]

  provider-service :
      (s : metadata.State) (provider : Connected lib.Service)
      → (create_cloud_provider lib s).0 ≡ answer provider
      → ((create_cloud_service lib s).0 ≡ answer provider.service)
        × ((get_project_and_zone_from_metadata metadata (create_cloud_service lib s).1).0
            ≡ answer (provider.project, provider.zone))
  unfolding create_cloud_provider
  provider-service s provider h = ground arith

-- Where the polling is as documented, the service of a cloud provider that is created was made of
-- a client, with the user agent of the driver; that client was made of the default token source,
-- right after a token of this source was fetched; and the project and the zone are what the
-- metadata server answers after that.
pub create_cloud_provider-IsClient :
    {metadata : Metadata} (lib : Libraries metadata) (s : metadata.State)
    (provider : Connected lib.Service)
    → IsPoll lib.poll_immediate
    → (create_cloud_provider lib s).0 ≡ answer provider
    → (source : lib.TokenSource) × (client : lib.Client) × (t u : metadata.State) × IsClient lib s
        source client t
      × IsService lib client t provider.service u
      × ((get_project_and_zone_from_metadata metadata u).0
          ≡ answer (provider.project, provider.zone))
create_cloud_provider-IsClient lib s provider law h =
    let (made, read) = provider-service lib s provider h in
    let (client, connected, service) = create_cloud_service-IsService lib s provider.service made in
    let (source, authenticated) = new_default_oauth_client-IsClient lib s client law connected in
    (source, client, _, _, authenticated, service, read)
