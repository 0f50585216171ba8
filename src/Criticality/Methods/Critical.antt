-- ===== src/Criticality/Methods/Critical.antt =====
-- The default tables of src/classification/methods.py (critical part).
use auditlens.Prelude.{List, [], ◌∷◌, String}

-- `_CRITICAL_METHODS_DEFAULT`
abbrev pub critical_methods : List String
critical_methods =
    "DeleteKafkaCluster" ∷ "PauseKafkaCluster" ∷ "DeleteEnvironment" ∷ "DeleteOrganization"
    ∷ "DeleteOrg" ∷ "kafka.DeleteTopics" ∷ "kafka.DeleteRecords" ∷ "DeleteConnector"
    ∷ "DeleteKsqldbCluster" ∷ "DeleteFlinkCompute" ∷ "DeleteComputePool" ∷ "DeleteFlinkStatement"
    ∷ "DeleteStatement" ∷ "DeleteSchema" ∷ "DeleteSubject" ∷ "DeletePrivateLinkAccess"
    ∷ "DeleteNetworkLinkEndpoint" ∷ "DeleteNetworkLinkService" ∷ "DeletePeering"
    ∷ "DeleteTransitGatewayAttachment" ∷ "DeleteTransitGateway" ∷ "DeleteServiceAccount"
    ∷ "DeleteIdentityProvider" ∷ "DeleteIdentityPool" ∷ "DeleteAuditLogConfig"
    ∷ "UpdateAuditLogConfig" ∷ "DeleteByokKey" ∷ "DeleteTableflow" ∷ "DeletePipeline"
    ∷ "DeleteWorkspace" ∷ "DeleteExporter" ∷ "DeleteDomain" ∷ "DeleteAccessPoint"
    ∷ "DeleteRoleBindingById" ∷ "RevokeRoleResourcesForPrincipal" ∷ "DeleteSchemaRegistryCluster"
    ∷ "DeleteNetwork" ∷ "DeleteKSQLCluster" ∷ "DeleteSSOConnection" ∷ "DeleteIdentityProvider"
    ∷ "DeleteIdentityPool" ∷ []
