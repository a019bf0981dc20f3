-- ===== src/Db/Tenancy/Isolation.antt =====
-- Which tenant the connections of a pool are set to.
use gotchi.Base.{
  ap, ◌≡◌, refl, ◌⊎◌, inl, inr, Bool, true, false, Bool-cases, Option, none, some, List, [], Text,
  All, same, if◌then◌else◌,
}
use gotchi.Errors.{Error}
use gotchi.Web.Context.{Context, value}
use gotchi.Web.Tenant.{system_tenant, with_system_tenant, with_tenant_id_string, tenant_id_string}
use gotchi.Db.Tenancy.{
  Conn, Server, Serves, tolerate, set_for, before_acquire, after_release, admin_context,
  is_undefined_function_error,
}
use gotchi.Db.Tenancy.Pool.{
  Pick, Pick.here, Pick.there, Lease, Pool, Answers, Step, Reach, connected, migrated, acquired,
  refused, released, destroyed, start, next,
}

abbrev tenant_or_none : Option Text → Text
tenant_or_none none = []
tenant_or_none (some t) = if same t system_tenant then [] else t

-- the tenant whose rows a request may see; none for the system tenant, as for no tenant
abbrev pub tenant_of : Context → Text
tenant_of ctx = tenant_or_none (tenant_id_string ctx)

abbrev pub Unset : Conn → Type 0
Unset c = c.current_tenant ≡ []

-- set to the tenant of its own request, or, where it was taken before the migration, to none
abbrev pub Isolated : Lease → Type 0
Isolated l =
    (l.conn.current_tenant ≡ tenant_of l.ctx) ⊎ ((l.since_installed ≡ false) × Unset l.conn)

abbrev pub IsIsolated : Pool → Type 0
IsIsolated p =
    All Unset p.idle
    × All Isolated p.leased
    × ((p.installed ≡ false) → All (λ l. Unset l.conn) p.leased)

Pick-All {ℓ κ} :
    {A : Type ℓ} {xs rest : List A} {a : A} (P : A → Type κ)
    → Pick xs a rest
    → All P xs
    → P a × All P rest
Pick-All P here (p, ps) = (p, ps)
Pick-All P (there pick) (p, ps) = let (q, qs) = Pick-All P pick ps in (q, (p, qs))

-- what an exec of set_tenant leaves, where the connection is kept
abbrev Kept : Bool → Text → Conn → Conn → Type 0
Kept installed t c d =
    ((installed ≡ true) × (d.current_tenant ≡ t)) ⊎ ((installed ≡ false) × (d ≡ c))

exec-Kept :
    (installed : Bool) (server : Server) (t : Text) (c : Conn) (r : Option Error)
    → Answers installed server
    → (server t c).0 ≡ r
    → tolerate r ≡ true
    → Kept installed t c (server t c).1
unfolding is_undefined_function_error
exec-Kept true server t c none answers got kept =
    inl (refl, ap (λ d. d.current_tenant) (answers.serves.sets t c got))
exec-Kept false server t c none answers got kept = absurd (answers.not_defined refl t c got)
exec-Kept true server t c (some e) answers got kept =
    absurd (let undefined = answers.defined refl t c e got in cc)
exec-Kept false server t c (some e) answers got kept =
    inr (refl, answers.serves.keeps t c e got kept)

after_release-Unset :
    (installed : Bool) (server : Server) (c : Conn)
    → Answers installed server
    → (after_release server c).0 ≡ true
    → ((installed ≡ false) → Unset c)
    → Unset (after_release server c).1
unfolding after_release
after_release-Unset installed server c answers kept unset =
    elim (exec-Kept installed server [] c (server [] c).0 answers refl kept) [
      | inl (now, set) ↦ set
      | inr (never, same_conn) ↦ rw same_conn (unset never)
    ]

-- what a connection of the idle ones is when a request has it
abbrev Taken : Bool → Option Text → Conn → Type 0
Taken installed o d =
    ((d.current_tenant ≡ tenant_or_none o) ⊎ ((installed ≡ false) × Unset d))
    × ((installed ≡ false) → Unset d)

exec-Taken :
    (installed : Bool) (server : Server) (t : Text) (c : Conn)
    → Unset c
    → Kept installed t c (server t c).1
    → ((((server t c).1.current_tenant ≡ t) ⊎ ((installed ≡ false) × Unset (server t c).1))
        × ((installed ≡ false) → Unset (server t c).1))
exec-Taken installed server t c unset (inl (now, set)) = (inl set, λ h. absurd (cc))
exec-Taken installed server t c unset (inr (never, same_conn)) =
    (inr (never, rw same_conn unset), λ h. rw same_conn unset)

set_for-Taken :
    (installed : Bool) (server : Server) (o : Option Text) (c : Conn)
    → Answers installed server
    → Unset c
    → (set_for server o c).0 ≡ true
    → Taken installed o (set_for server o c).1
set_for-Taken installed server none c answers unset kept = (inl unset, λ h. unset)
set_for-Taken installed server (some t) c answers unset kept =
    elim (Bool-cases (same t system_tenant)) [
      | inl system ↦ rw system (inl unset, λ h. unset)
      | inr other ↦ rw other (
          exec-Taken installed server t c unset
            (exec-Kept installed server t c (server t c).0 answers refl (rw other at kept)))
    ]

Step-IsIsolated : {p q : Pool} → IsIsolated p → Step p q → IsIsolated q
unfolding before_acquire tenant_id_string
Step-IsIsolated (idle, leased, unset) (connected p) = ((refl, idle), leased, unset)
Step-IsIsolated (idle, leased, unset) (migrated p) = (idle, leased, λ h. absurd (cc))
Step-IsIsolated (idle, leased, unset) (acquired p server ctx c rest answers pick kept) =
    let (clean, others) = Pick-All Unset pick idle in
    let (isolated, none_yet) =
      set_for-Taken p.installed server (tenant_id_string ctx) c answers clean kept in
    (others, (isolated, leased), λ h. (none_yet h, unset h))
Step-IsIsolated (idle, leased, unset) (refused p server ctx c rest answers pick lost) =
    ((Pick-All Unset pick idle).1, leased, unset)
Step-IsIsolated (idle, leased, unset) (released p server l rest answers pick kept) = (
  (
    after_release-Unset p.installed server l.conn answers kept
        (λ h. (Pick-All (λ l. Unset l.conn) pick (unset h)).0),
    idle,
  ),
  (Pick-All Isolated pick leased).1,
  λ h. (Pick-All (λ l. Unset l.conn) pick (unset h)).1,
)
Step-IsIsolated (idle, leased, unset) (destroyed p l rest pick) =
    (idle, (Pick-All Isolated pick leased).1, λ h. (Pick-All (λ l. Unset l.conn) pick (unset h)).1)

-- However requests take and return connections, whichever of them the hooks or the network destroy,
-- and whenever the migration that defines set_tenant runs: each idle connection is set to no tenant,
-- and each connection in use to the tenant of its own request, or, where the request took it before
-- that migration, to none.
pub reachable-IsIsolated : (p : Pool) → Reach p → IsIsolated p
reachable-IsIsolated p (start installed) = (tt, tt, λ h. tt)
reachable-IsIsolated p (next reached step) = Step-IsIsolated (reachable-IsIsolated _ reached) step

tolerates :
    (r : Option Error) (e : Error)
    → r ≡ some e
    → is_undefined_function_error e ≡ true
    → tolerate r ≡ true
unfolding is_undefined_function_error
tolerates r e got undefined = rw got undefined

admin_takes :
    (server : Server) (parent : Option Context) (c : Conn)
    → before_acquire server (admin_context parent) c ≡ (true, c)
unfolding before_acquire tenant_id_string admin_context with_system_tenant with_tenant_id_string
    value same
admin_takes server none c = refl
admin_takes server (some ctx) c = refl

-- Where set_tenant is not found when a connection comes back, whatever the reason, AfterRelease
-- keeps the connection with the tenant of the request that had it, and a request of the system
-- tenant that takes it next uses it so.
pub after_release_leaks :
    (server server' : Server) (parent : Option Context) (c : Conn) (e : Error)
    → Serves server
    → (server [] c).0 ≡ some e
    → is_undefined_function_error e ≡ true
    → (after_release server c ≡ (true, c))
      × (before_acquire server' (admin_context parent) (after_release server c).1 ≡ (true, c))
unfolding after_release
after_release_leaks server server' parent c e serves got undefined =
    let same_conn = serves.keeps [] c e got undefined in
    let kept = tolerates (server [] c).0 e got undefined in
    (rw (kept, same_conn), rw same_conn (admin_takes server' parent c))
