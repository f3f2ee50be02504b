-- ===== src/History/Pulled/Sorting.antt =====
-- How `pullMessageIntoTable` of internal/conversation_msg/message_check.go sorts what it pulls.
use openim_sdk_core.Prelude.{List, nat_eq}
use openim_sdk_core.Prelude.Map.{Map}
