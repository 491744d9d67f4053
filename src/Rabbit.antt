-- ===== src/Rabbit.antt =====
-- net/rabbitmq and its copy net/alirabbit: producers and consumers of a RabbitMQ server, that make
-- their connection again when it is lost.
mod Config
mod Topology
mod Submitted
mod Process
mod Leaks
mod Closed
mod Sending
mod Samples
