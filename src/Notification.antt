-- ===== src/Notification.antt =====
-- The package notification: the queue of past events and its numbers, the controller that passes new
-- events on to the subscribers, and the handler of a subscription.
pub mod Numbers
pub mod Queue
pub mod Controller
pub mod Sse
