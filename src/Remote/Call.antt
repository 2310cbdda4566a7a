-- ===== src/Remote/Call.antt =====
-- A remote call that does not come to a member of the service.
use st_tools.Prelude.{◌≡◌, ◌⊎◌, String, true, Option, none, ◌==◌, arith}
use st_tools.Prelude.Exec.{Exn}
use st_tools.Json.{Elements, Fields}
use st_tools.Remote.{calls, Member, is_protected, process_request}

-- A request that asks for a protected operation, for `ping` or for a member that is not there leaves
-- the service as it was.
pub process_request-same :
    {S : Type 0} (members : String → Option (Member S)) (missing : Exn) (op : String)
    (args : Elements) (kwargs : Fields) (s : S)
    → (is_protected op ≡ true) ⊎ ((op == "ping" ≡ true) ⊎ (members op ≡ none))
    → (process_request members missing (calls op args kwargs) s).1 ≡ s
unfolding process_request
process_request-same members missing op args kwargs s h = ground arith
