-- ===== src/Web/Tenant.antt =====
-- tenantctx/tenantctx.go, over an UUID library that is a parameter.
use gotchi.Base.{
  ℕ, ◌≡◌, ◌≢◌, ap, Bool, true, false, Option, none, some, [], Text, codes, is_empty, same, same_iff,
  same_self, if◌then◌else◌, arith, Bool-cases, inl, inr,
}
use gotchi.Web.Context.{Context, tenant_key, text, with_value, value, as_text}

-- github.com/google/uuid: `String` gives a text that is not empty and that `Parse` reads back.
pub record Uuids : Type 0 where
  pub print : ℕ → Text
  pub parse : Text → Option ℕ
  pub parse-print : (u : ℕ) → parse (print u) ≡ some u
  pub print-ne_nil : (u : ℕ) → print u ≢ []

abbrev pub system_tenant : Text
system_tenant = codes "ADMIN_SYSTEM"

unfoldable pub with_tenant_id_string : Context → Text → Context
with_tenant_id_string ctx t = with_value ctx tenant_key (text t)

unfoldable pub with_system_tenant : Context → Context
unfolding with_tenant_id_string
with_system_tenant ctx = with_tenant_id_string ctx system_tenant

abbrev pub non_empty : Option Text → Option Text
non_empty none = none
non_empty (some t) = if is_empty t then none else some t

unfoldable pub tenant_id_string : Context → Option Text
unfolding value
tenant_id_string ctx = non_empty (as_text (value ctx tenant_key))

abbrev is_system : Option Text → Bool
is_system none = false
is_system (some t) = same t system_tenant

unfoldable pub is_system_tenant : Context → Bool
unfolding tenant_id_string
is_system_tenant ctx = is_system (tenant_id_string ctx)

module _ (u : Uuids) where
  unfoldable pub with_tenant_id : Context → ℕ → Context
  with_tenant_id ctx id = with_value ctx tenant_key (text (u.print id))

  abbrev parsed : Option Text → Option ℕ
  parsed none = none
  parsed (some t) = u.parse t

  unfoldable pub tenant_id : Context → Option ℕ
  unfolding tenant_id_string
  tenant_id ctx = parsed (tenant_id_string ctx)

  non_empty-print : (id : ℕ) → non_empty (some (u.print id)) ≡ some (u.print id)
  non_empty-print id = ground (arith, u.print-ne_nil id)

  pub tenant_id-of_set : (ctx : Context) (id : ℕ) → tenant_id (with_tenant_id ctx id) ≡ some id
  unfolding tenant_id with_tenant_id
  tenant_id-of_set ctx id = rw (non_empty-print id) (u.parse-print id)

  print-ne_system :
      (id : ℕ) → u.parse system_tenant ≡ none → same (u.print id) system_tenant ≡ false
  print-ne_system id system = elim (Bool-cases (same (u.print id) system_tenant)) [
    | inl equal ↦
        (let printed = ap u.parse ((same_iff (u.print id) system_tenant).0 equal) in
          let again = u.parse-print id in absurd (cc))
    | inr differ ↦ differ
  ]

  -- A tenant that was set is read back, whatever the context held, and is never taken for the
  -- system tenant where the library refuses to parse that name.
  pub tenant_id-with_tenant_id :
      (ctx : Context) (id : ℕ)
      → u.parse system_tenant ≡ none
      → (tenant_id (with_tenant_id ctx id) ≡ some id)
        × (is_system_tenant (with_tenant_id ctx id) ≡ false)
        × (tenant_id (with_system_tenant ctx) ≡ none)
        × (is_system_tenant (with_system_tenant ctx) ≡ true)
  unfolding tenant_id with_tenant_id is_system_tenant with_system_tenant
  tenant_id-with_tenant_id ctx id system = (
    tenant_id-of_set ctx id,
    rw (non_empty-print id) (print-ne_system id system),
    system,
    same_self system_tenant,
  )
