-- ===== src/Tests.antt =====
-- Runs of the model on concrete inputs, with a concrete reader of numbers.
mod Cast
mod Conversation
mod Machine
mod Options
mod Pool
mod Protocol
mod Reading
mod Service
mod Serving
mod Threads
