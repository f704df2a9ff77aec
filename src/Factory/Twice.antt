-- ===== src/Factory/Twice.antt =====
-- Two requests for managers, one after the other (`ManagerFor` of the `manager_factory.go` files of
-- pkg/resource).
use ack_ws_s3files_controlle.Prelude.{
  String, false, ◌&&◌, ◌≡◌, refl, sym, arith, ◌∙◌, Option, none, some, ◌==◌, eq_refl, eq_iff,
  if◌then◌else◌, Option-cases, Bool-cases, inl, inr,
}
use ack_ws_s3files_controlle.Ack.{Runtime}
use ack_ws_s3files_controlle.Aws.{Service}
use ack_ws_s3files_controlle.Manager.{ResourceManager}
use ack_ws_s3files_controlle.Factory.{
  Config, Cache, manager_id, cached, cached-store, new_resource_manager, manager_for,
}
use ack_ws_s3files_controlle.Factory.Ids.{has_slash, manager_id-same}

manager_id-eq :
    (id id' region region' role_arn role_arn' : String)
    → has_slash id ≡ false
    → has_slash id' ≡ false
    → has_slash region ≡ false
    → has_slash region' ≡ false
    → (manager_id id region role_arn == manager_id id' region' role_arn')
      ≡ (id == id' && (region == region' && role_arn == role_arn'))
manager_id-eq id id' region region' role_arn role_arn' hi hi' hr hr' =
    let k = manager_id id region role_arn in
    let k' = manager_id id' region' role_arn' in
    elim (Bool-cases (k == k')) [
      | inl e ↦
          let same =
            manager_id-same id id' region region' role_arn role_arn' hi hi' hr hr'
              ((eq_iff k k').0 e) in
          rw (same.0, same.1, same.2, eq_refl k', eq_refl id', eq_refl region', eq_refl role_arn')
            refl
      | inr e ↦ elim (Bool-cases (id == id' && (region == region' && role_arn == role_arn'))) [
        | inl all ↦ ground (
          arith,
          e,
          all,
          eq_iff id id',
          eq_iff region region',
          eq_iff role_arn role_arn',
          eq_refl k,
        )
        | inr other ↦ e ∙ sym other
      ]
    ]

module _ {S E Client : Type 0} (rt : Runtime E) (new_from_config : Client → Service S E) where
  -- The manager that is there, or else a new one.
  abbrev or_new :
      Config → Client → String → String → Option (ResourceManager S E) → ResourceManager S E
  or_new cfg clientcfg id region (some rm) = rm
  or_new cfg clientcfg id region none =
      new_resource_manager rt new_from_config cfg clientcfg id region

  manager_for-or_new :
      (cfg : Config) (clientcfg : Client) (id region role_arn : String) (cache : Cache S E)
      → (manager_for rt new_from_config cfg clientcfg id region role_arn cache).0
        ≡ or_new cfg clientcfg id region (cached (manager_id id region role_arn) cache)
  unfolding manager_for
  manager_for-or_new cfg clientcfg id region role_arn cache =
      elim (Option-cases (cached (manager_id id region role_arn) cache)) [
        | inl e ↦ rw (e, manager_for) refl
        | inr (rm, e) ↦ rw (e, manager_for) refl
      ]

  -- What a request leaves in the cache.
  cached-manager_for :
      (cfg : Config) (clientcfg : Client) (id region role_arn : String) (cache : Cache S E)
      (k : String)
      → (let first = manager_for rt new_from_config cfg clientcfg id region role_arn cache in
          cached k first.1
          ≡ (if manager_id id region role_arn == k then some first.0 else cached k cache))
  unfolding manager_for
  cached-manager_for cfg clientcfg id region role_arn cache k =
      let own = manager_id id region role_arn in
      elim (Option-cases (cached own cache)) [
        | inl e ↦
            let rm = new_resource_manager rt new_from_config cfg clientcfg id region in
            rw (e, manager_for) (cached-store own k rm cache)
        | inr (rm, e) ↦ rw (e, manager_for) (ground (arith, e, eq_iff own k))
      ]

  manager_for_hit :
      (cfg : Config) (clientcfg : Client) (id region role_arn : String) (cache : Cache S E)
      {rm : ResourceManager S E}
      → cached (manager_id id region role_arn) cache ≡ some rm
      → manager_for rt new_from_config cfg clientcfg id region role_arn cache ≡ (rm, cache)
  unfolding manager_for
  manager_for_hit cfg clientcfg id region role_arn cache e = rw (e, manager_for) refl

  -- A request for the same account, region and role as an earlier one gets the manager of that one,
  -- whatever the configurations are, and leaves the cache as it is; a request for another account,
  -- region or role gets what it would have got without the earlier one. Accounts and regions have no
  -- slash.
  pub manager_for-manager_for :
      (cfg cfg' : Config) (clientcfg clientcfg' : Client)
      (id id' region region' role_arn role_arn' : String) (cache : Cache S E)
      → has_slash id ≡ false
      → has_slash id' ≡ false
      → has_slash region ≡ false
      → has_slash region' ≡ false
      → (let first = manager_for rt new_from_config cfg clientcfg id region role_arn cache in
          let later = manager_for rt new_from_config cfg' clientcfg' in
          ((later id' region' role_arn' first.1).0 ≡ (
            if id == id' && (region == region' && role_arn == role_arn')
            then first.0
            else (later id' region' role_arn' cache).0))
          × (later id region role_arn first.1 ≡ first))
  manager_for-manager_for cfg cfg' clientcfg clientcfg' id id' region region' role_arn role_arn'
        cache hi hi' hr hr' =
      let k = manager_id id region role_arn in
      let k' = manager_id id' region' role_arn' in
      let first = manager_for rt new_from_config cfg clientcfg id region role_arn cache in
      let kept = cached-manager_for cfg clientcfg id region role_arn cache in
      let keys = manager_id-eq id id' region region' role_arn role_arn' hi hi' hr hr' in
      let found = manager_for-or_new cfg' clientcfg' id' region' role_arn' in
      let own : cached k first.1 ≡ some first.0 = kept k ∙ rw (eq_refl k) refl in
      (
        found first.1
            ∙ rw (kept k', keys)
                (elim (Bool-cases (id == id' && (region == region' && role_arn == role_arn'))) [
                  | inl e ↦ rw (e) refl
                  | inr e ↦ rw (e) (sym (found cache))
                ]),
        manager_for_hit cfg' clientcfg' id region role_arn first.1 own,
      )
