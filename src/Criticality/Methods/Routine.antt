-- ===== src/Criticality/Methods/Routine.antt =====
-- The default tables of src/classification/methods.py (routine part).
use auditlens.Prelude.{List, [], ◌∷◌, String}

-- `_SECURITY_FAILURE_STATUSES_DEFAULT`
abbrev pub security_failure_statuses : List String
security_failure_statuses =
    "UNAUTHENTICATED" ∷ "PERMISSION_DENIED" ∷ "UNAUTHORIZED" ∷ "FORBIDDEN" ∷ "INVALID_CREDENTIALS"
    ∷ []

-- `_AUTHENTICATION_METHODS_DEFAULT`
abbrev pub authentication_methods : List String
authentication_methods =
    "kafka.Authentication" ∷ "Authentication" ∷ "Authenticate" ∷ "flink.Authenticate"
    ∷ "ksql.Authenticate" ∷ "schema-registry.Authentication" ∷ "SignIn" ∷ []

-- `_AUTHORIZATION_CHECK_METHODS_DEFAULT`
abbrev pub authorization_check_methods : List String
authorization_check_methods =
    "mds.Authorize" ∷ "flink.Authorize" ∷ "ksql.Authorize" ∷ "schema-registry.Authorize"
    ∷ "ip-filter.Authorize" ∷ []

-- `_READ_ONLY_METHODS_DEFAULT`
abbrev pub read_only_methods : List String
read_only_methods =
    "kafka.Metadata" ∷ "kafka.DescribeCluster" ∷ "kafka.ListGroups" ∷ "kafka.DescribeGroups"
    ∷ "kafka.ListOffsets" ∷ "kafka.OffsetFetch" ∷ "kafka.FindCoordinator" ∷ "ListKafkaClusters"
    ∷ "ListEnvironments" ∷ "ListServiceAccounts" ∷ "ListApiKeys" ∷ "ListUsers" ∷ "ListRoleBindings"
    ∷ "ListConnectors" ∷ "ListSchemas" ∷ "ListSubjects" ∷ "GetKafkaCluster" ∷ "GetKafkaClusters"
    ∷ "GetEnvironment" ∷ "GetEnvironments" ∷ "GetServiceAccount" ∷ "GetServiceAccounts"
    ∷ "GetApiKey" ∷ "GetApiKeys" ∷ "GetUser" ∷ "GetUsers" ∷ "GetConnector" ∷ "GetConnectors"
    ∷ "GetSchema" ∷ "DescribeConnector" ∷ "GetKSQLClusters" ∷ "GetKSQLCluster" ∷ "ListWorkspaces"
    ∷ "ListComputePools" ∷ "ListSchemaRegistryClusters" ∷ "GetPrivateLinkAttachments"
    ∷ "GetPrivateLinkAttachmentConnections" ∷ "GetNetworks" ∷ "schema-registry.GetAllTagDefs"
    ∷ "schema-registry.GetEntityByTypeAndName" ∷ "schema-registry.GetDek" ∷ "GetAPIKey"
    ∷ "GetAPIKeys" ∷ "GetStatement" ∷ "ListStatements" ∷ "ListFlinkRegions" ∷ "GetWorkspace"
    ∷ "ListCustomConnectorPlugins" ∷ "ListEndpoints" ∷ "ListIdentityPool" ∷ "GetTransitGateways"
    ∷ "kafka.Produce" ∷ "kafka.Fetch" ∷ "kafka.JoinGroup" ∷ "kafka.LeaveGroup" ∷ "kafka.SyncGroup"
    ∷ "kafka.Heartbeat" ∷ "kafka.OffsetCommit" ∷ "ApiAccess" ∷ "UIAccess" ∷ "TableflowOAuthTokens"
    ∷ "GetComputePool" ∷ "TableflowCatalogConfig" ∷ "ListTableFlowCatalog" ∷ "TableflowGetCatalog"
    ∷ "TableflowListCatalogs" ∷ "GetPrivateLinkAccesses" ∷ "GetPrivateLinkAccess" ∷ "GetPeerings"
    ∷ "GetPeering" ∷ "ListIntegrations" ∷ "GetIntegration" ∷ "GetSchemaRegistryCluster"
    ∷ "GetInvitations" ∷ "GetInvitation" ∷ "GetSSOConnection" ∷ "ListSSOConnections" ∷ []

-- `_SENSITIVE_KEYWORDS_DEFAULT`
abbrev pub sensitive_keywords : List String
sensitive_keywords =
    "apikey" ∷ "api_key" ∷ "serviceaccount" ∷ "service_account" ∷ "acl" ∷ "rolebinding"
    ∷ "role_binding" ∷ "identity" ∷ "credential" ∷ "secret" ∷ "password" ∷ "token" ∷ "permission"
    ∷ []
