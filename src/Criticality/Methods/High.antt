-- ===== src/Criticality/Methods/High.antt =====
-- The default tables of src/classification/methods.py (high part).
use auditlens.Prelude.{List, [], ◌∷◌, String}

-- `_HIGH_METHODS_DEFAULT`
abbrev pub high_methods : List String
high_methods =
    "CreateApiKey" ∷ "DeleteApiKey" ∷ "UpdateApiKey" ∷ "RotateApiKey" ∷ "kafka.CreateAcls"
    ∷ "kafka.DeleteAcls" ∷ "CreateServiceAccount" ∷ "UpdateServiceAccount" ∷ "CreateRoleBinding"
    ∷ "DeleteRoleBinding" ∷ "UpdateRoleBinding" ∷ "UnbindAllRolesForPrincipal"
    ∷ "GrantRoleResourcesForPrincipal" ∷ "BindRoleForPrincipal" ∷ "CreateInvitation"
    ∷ "DeleteInvitation" ∷ "CreateUser" ∷ "DeleteUser" ∷ "UpdateUser" ∷ "InviteUser"
    ∷ "CreateIdentityProvider" ∷ "UpdateIdentityProvider" ∷ "CreateIdentityPool"
    ∷ "UpdateIdentityPool" ∷ "CreatePrivateLinkAccess" ∷ "UpdatePrivateLinkAccess"
    ∷ "CreatePrivateLinkAttachment" ∷ "DeletePrivateLinkAttachment" ∷ "UpdatePrivateLinkAttachment"
    ∷ "CreatePrivateLinkAttachmentConnection" ∷ "DeletePrivateLinkAttachmentConnection"
    ∷ "CreateNetworkLinkEndpoint" ∷ "UpdateNetworkLinkEndpoint" ∷ "CreateNetworkLinkService"
    ∷ "UpdateNetworkLinkService" ∷ "CreatePeering" ∷ "UpdatePeering"
    ∷ "CreateTransitGatewayAttachment" ∷ "UpdateTransitGatewayAttachment" ∷ "CreateTransitGateway"
    ∷ "UpdateTransitGateway" ∷ "CreateClusterLink" ∷ "DeleteClusterLink" ∷ "UpdateClusterLink"
    ∷ "CreateMirrorTopic" ∷ "DeleteMirrorTopic" ∷ "CreateConnector" ∷ "UpdateConnector"
    ∷ "PauseConnector" ∷ "ResumeConnector" ∷ "UpdateMode" ∷ "UpdateConfig" ∷ "kafka.DescribeAcls"
    ∷ "CreateByokKey" ∷ "UpdateByokKey" ∷ "EncryptTopic" ∷ "DecryptTopic" ∷ "CreateAuditLogConfig"
    ∷ "CreateSSOGroupMapping" ∷ "DeleteSSOGroupMapping" ∷ "UpdateSSOGroupMapping"
    ∷ "CreateGroupMapping" ∷ "DeleteGroupMapping" ∷ "CreateIPFilter" ∷ "DeleteIPFilter"
    ∷ "CreateIPGroup" ∷ "DeleteIPGroup" ∷ "UpdateIPGroup" ∷ "SuspendOrg" ∷ "UnsuspendOrg"
    ∷ "CreateDnsForwarder" ∷ "DeleteDnsForwarder" ∷ "CreateIntegration" ∷ "DeleteIntegration"
    ∷ "CreateExporter" ∷ "CreateAlert" ∷ "CreateDomain" ∷ "CreateAccessPoint" ∷ "CreateAPIKey"
    ∷ "DeleteAPIKey" ∷ "UpdateAPIKey" ∷ "CreateSSOConnection" ∷ "UpdateSSOConnection"
    ∷ "kafka.AlterConfigs" ∷ "kafka.IncrementalAlterConfigs" ∷ "kafka.DeleteGroups"
    ∷ "kafka.CreateClusterLinks" ∷ "kafka.DeleteClusterLinks" ∷ "schema-registry.RegisterDek"
    ∷ "schema-registry.RegisterKek" ∷ "schema-registry.DeregisterDek"
    ∷ "schema-registry.DeregisterKek" ∷ "schema-registry.DeleteSubject"
    ∷ "schema-registry.DeleteSchemaVersion" ∷ []
