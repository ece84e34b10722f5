-- ===== src/Service/Api/Tests.antt =====
-- examples/node/main.go: a push of a configuration to the one child of a branch.
use multi_region.Prelude.{ℕ, ◌≡◌, refl, some, [], ◌++◌, str, get_or, arith}
use multi_region.Server.{Server}
use multi_region.Server.Broadcast.{full_keys, taken_in}
use multi_region.Node.{new_envelope}
use multi_region.Service.Storage.Memory.{memory}
use multi_region.Service.Api.{Service, handle_admin_config}
use multi_region.Service.Api.Push.{Tells, config_push}
use multi_region.Service.Tests.{guarded, running, lunch}

config_push_example :
    let env = new_envelope lunch (str "branch") (str "config") (str "v2") in
    let (r, st') = handle_admin_config lunch (some (str "v2")) running in
    Tells r 1 (full_keys guarded.channels guarded.children)
    × ((t : Server (Service memory)) × (st'.node.server ≡ some t)
        × ((c : ℕ)
            → get_or t.channels c []
              ≡ get_or guarded.channels c [] ++ taken_in env guarded.channels guarded.children c))
config_push_example = config_push lunch (str "v2") running guarded refl (omega arith, tt) (refl, tt)

no_child_full : full_keys guarded.channels guarded.children ≡ []
unfolding full_keys
no_child_full = refl
