-- ===== src/Criticality/Tests.antt =====
-- Classifications under the default tables, and the theorems at concrete inputs.
use auditlens.Prelude.{
  ◌≡◌, ◌↔◌, refl, true, false, none, some, [], ◌∷◌, String, lower, upper, is_in, has_part,
}
use auditlens.Criticality.Methods.{
  MethodRules, YamlRules, Extras, modification, resolve, get_method_category, is_sensitive_method,
  name_tokens, has_pattern, has_keyword, keyword_tokens,
}
use auditlens.Criticality.{critical, medium, AuditEvent, is_false, calculate_criticality}
use auditlens.Criticality.Levels.{is_failed, critical_iff}

abbrev no_yaml : YamlRules
no_yaml = record {
  critical? = none;
  high? = none;
  medium? = none;
  read_only? = none;
  authentication? = none;
  authorization_check? = none;
  security_failure? = none;
  keywords? = none;
  deletion? = none;
  creation? = none;
  modification? = none;
  read? = none;
}

abbrev no_extras : Extras
no_extras = record { critical_extra = []; high_extra = []; medium_extra = []; low_extra = [] }

abbrev rules : MethodRules
rules = resolve no_yaml no_extras

abbrev event : String → String → AuditEvent
event name status = record { method_name = name; result_status = status; granted = none }

abbrev commit : AuditEvent
commit = event "kafka.OffsetCommit" "SUCCESS"

abbrev denial : AuditEvent
denial = record { method_name = "DeleteKafkaCluster"; result_status = ""; granted = some false }

name_tokens-key : name_tokens "GetApiKey_v2" ≡ "get" ∷ "api" ∷ "key" ∷ "v2" ∷ []
unfolding name_tokens lower
name_tokens-key = refl

-- The letters of `Offset` hold the pattern `Set`.
commit_category : get_method_category rules "kafka.OffsetCommit" ≡ modification
unfolding get_method_category resolve has_pattern upper has_part
commit_category = refl

commit_medium : (calculate_criticality rules commit).criticality ≡ medium
unfolding calculate_criticality resolve get_method_category has_pattern is_sensitive_method
    has_keyword name_tokens keyword_tokens upper lower has_part is_in
commit_medium = refl

critical_iff_example :
    (calculate_criticality rules denial).criticality ≡ critical
    ↔ (is_in "DeleteKafkaCluster" rules.critical ≡ true)
      × (is_failed rules denial ≡ false)
      × (is_false denial.granted ≡ false)
critical_iff_example = critical_iff rules denial

abbrev drop_view : AuditEvent
drop_view = event "DropView" "SUCCESS"
