-- ===== src/Safety.antt =====
-- Memory safety of the reactor (src/EventLoop.cpp, src/Epoll.cpp, src/Server.cpp): the connections and
-- callbacks that a run uses.
pub mod Safely
pub mod View
pub mod Receive
pub mod Send
pub mod Accept
pub mod Wait
pub mod Loop
pub mod Startup
pub mod Program
