-- ===== src/Notification.antt =====
-- common/notificationconsumer.h, common/notificationconsumer.cpp and
-- common/notificationproducer.cpp, with the two functions of common/json.cpp that they use:
-- messages on a channel of Redis, and their queue in the consumer.
pub mod Queue
pub mod Producer
mod PlainJson
pub mod Consumer
pub mod Waits
