-- ===== src/Constants.antt =====
-- The constants of pkg/controllers/main_controller.go and those of Kubernetes that the source names.
use datafuse_operator.Prelude.{String}

abbrev pub error_resource_exists : String
error_resource_exists = "ErrResourceExists"

abbrev pub success_synced : String
success_synced = "Synced"

abbrev pub message_resource_synced : String
message_resource_synced = "datafuse operator synced successfully"

abbrev pub operator_label : String
operator_label = "datafuse-operator"

abbrev pub compute_group_label : String
compute_group_label = "datafuse-computegroup"

abbrev pub compute_group_role_label : String
compute_group_role_label = "datafuse-computegrouprole"

abbrev pub compute_group_role_leader : String
compute_group_role_leader = "leader"

abbrev pub compute_group_role_follower : String
compute_group_role_follower = "follower"

abbrev pub instance_container_name : String
instance_container_name = "fusequery"

abbrev pub fuse_query_num_cpus : String
fuse_query_num_cpus = "FUSE_QUERY_NUM_CPUS"

abbrev pub fuse_query_mysql_handler_host : String
fuse_query_mysql_handler_host = "FUSE_QUERY_MYSQL_HANDLER_HOST"

abbrev pub fuse_query_mysql_handler_port : String
fuse_query_mysql_handler_port = "FUSE_QUERY_MYSQL_HANDLER_PORT"

abbrev pub fuse_query_clickhouse_handler_host : String
fuse_query_clickhouse_handler_host = "FUSE_QUERY_CLICKHOUSE_HANDLER_HOST"

abbrev pub fuse_query_clickhouse_handler_port : String
fuse_query_clickhouse_handler_port = "FUSE_QUERY_CLICKHOUSE_HANDLER_PORT"

abbrev pub fuse_query_rpc_api_address : String
fuse_query_rpc_api_address = "FUSE_QUERY_FLIGHT_API_ADDRESS"

abbrev pub fuse_query_http_api_address : String
fuse_query_http_api_address = "FUSE_QUERY_HTTP_API_ADDRESS"

abbrev pub fuse_query_metric_api_address : String
fuse_query_metric_api_address = "FUSE_QUERY_METRIC_API_ADDRESS"

abbrev pub fuse_query_priority : String
fuse_query_priority = "FUSE_QUERY_PRIORITY"

abbrev pub container_http_port : String
container_http_port = "http"

abbrev pub container_metrics_port : String
container_metrics_port = "metrics"

abbrev pub container_rpc_port : String
container_rpc_port = "rpc"

abbrev pub container_mysql_port : String
container_mysql_port = "mysql"

abbrev pub container_clickhouse_port : String
container_clickhouse_port = "clickhouse"

-- Of k8s.io/api and apimachinery.
abbrev pub protocol_tcp : String
protocol_tcp = "TCP"

abbrev pub uri_scheme_http : String
uri_scheme_http = "HTTP"

abbrev pub service_type_cluster_ip : String
service_type_cluster_ip = "ClusterIP"

abbrev pub namespace_all : String
namespace_all = ""
