-- ===== src/Tests/Borders.antt =====
-- Another service that has no such item.
use boilerplate_go_grpc_micr.Common.{◌≡◌, true, if◌then◌else◌}
use boilerplate_go_grpc_micr.Common.Int.{pos}
use boilerplate_go_grpc_micr.Common.Text.{Text, codes}
use boilerplate_go_grpc_micr.Failures.{Code}
use boilerplate_go_grpc_micr.Interceptors.{raised, made, chain_errors}
use boilerplate_go_grpc_micr.Client.{Upstream, is_outage, returned, translated}
use boilerplate_go_grpc_micr.Client.Borders.{internal_status, outage_status, chain_errors-upstream}

abbrev name_of : Code → Text
name_of c = codes "NotFound"

abbrev missing : Upstream
missing = record {
  target = codes "inventory:50051";
  method = codes "/inventory.v1/Get";
  code = 5;
  reason = codes "SKU_NOT_FOUND";
  domain = codes "inventory";
  message = codes "no such item";
  retry_after = pos 0;
  cause = codes "NotFound: no such item";
}

chain_errors-upstream_example :
    (chain_errors true (codes "orders") (raised (returned name_of missing))
      ≡ made (internal_status true (codes "orders") (codes "INTERNAL")))
    × (chain_errors true (codes "orders") (raised (translated name_of missing))
        ≡ made (
            if is_outage missing.code
            then outage_status name_of true (codes "orders") missing
            else internal_status true (codes "orders") (codes "UPSTREAM_FAILED")))
chain_errors-upstream_example = chain_errors-upstream name_of true (codes "orders") missing
