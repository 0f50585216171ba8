-- ===== src/Criticality/Methods/Medium.antt =====
-- The default tables of src/classification/methods.py (medium part).
use auditlens.Prelude.{List, [], ◌∷◌, String}

-- `_MEDIUM_METHODS_DEFAULT`
abbrev pub medium_methods : List String
medium_methods =
    "kafka.DescribeConfigs" ∷ "UpdateKafkaCluster" ∷ "CreateKafkaCluster" ∷ "ResumeKafkaCluster"
    ∷ "CreateEnvironment" ∷ "UpdateEnvironment" ∷ "kafka.CreateTopics" ∷ "kafka.CreatePartitions"
    ∷ "kafka.OffsetDelete" ∷ "CreateKsqldbCluster" ∷ "UpdateKsqldbCluster" ∷ "PauseKsqldbCluster"
    ∷ "RestoreKsqldbCluster" ∷ "CreateFlinkCompute" ∷ "CreateComputePool" ∷ "UpdateFlinkCompute"
    ∷ "UpdateComputePool" ∷ "CreateFlinkStatement" ∷ "CreateStatement" ∷ "UpdateFlinkStatement"
    ∷ "UpdateStatement" ∷ "CreateSchema" ∷ "UpdateSchema" ∷ "CreateSubject" ∷ "CreateNetwork"
    ∷ "UpdateNetwork" ∷ "CreateTableflow" ∷ "UpdateTableflow" ∷ "RestartConnector"
    ∷ "RestartConnectorTask" ∷ "ActivatePipeline" ∷ "DeactivatePipeline"
    ∷ "ActivatePipelineConnector" ∷ "DeactivatePipelineConnector" ∷ "PauseExporter"
    ∷ "ResumeExporter" ∷ "ResetExporter" ∷ "PatchWorkspace" ∷ "UpdateWorkspace"
    ∷ "UpdateIntegration" ∷ "UpdateAlert" ∷ "UpdateSubscription" ∷ "UpdateOptIn"
    ∷ "RefreshIdentityProviderKeys" ∷ []
